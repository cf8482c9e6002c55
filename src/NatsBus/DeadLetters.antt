-- ===== src/NatsBus/DeadLetters.antt =====
-- `deadLetterStore` of natsbus/reliable.go. The directory is the list of its entries, and which calls
-- of the file system fail is an argument. A file that json.Marshal wrote is its record. The bytes of
-- a file name stand in the order of its code points.
use service_runtime.Base.{
  ℕ, zero, suc, ◌+◌, ◌-◌, ◌*◌, ◌/◌, ◌%◌, Bool, true, false, not, ◌&&◌, ◌||◌, Option, none, some,
  List, [], ◌∷◌, ◌++◌, reverse, leb, ltb, ◌==◌, if◌then◌else◌, ℤ, pos, negsuc, Text, codes,
  is_empty, text_eq, trim_space, has_prefix, lookup_key, insert_key, is_some,
}

-- `nats.Msg`, as far as it is built here
pub record Message : Type 0 where
  pub subject : Text
  pub header : List (Text × List Text)
  pub data_bytes : List ℕ

-- The time is in nanoseconds after Go's zero time, which is 0.
pub record DeadLetter : Type 0 where
  pub id : Text
  pub created_at : ℕ
  pub subject : Text
  pub header : List (Text × List Text)
  pub data_bytes : List ℕ
  pub last_error : Text

-- `message` of a stored record
unfoldable pub message : DeadLetter → Message
message r = record { subject = r.subject; header = r.header; data_bytes = r.data_bytes }

pub data File : Type 0 where
  directory undecodable : File
  letter : DeadLetter → File

pub record Store : Type 0 where
  pub files : List (Text × File)
  pub count : ℤ

unfoldable pub add_one : ℤ → ℤ
add_one (pos n) = pos (n + 1)
add_one (negsuc zero) = pos 0
add_one (negsuc (suc n)) = negsuc n

unfoldable pub subtract_one : ℤ → ℤ
subtract_one (pos zero) = negsuc 0
subtract_one (pos (suc n)) = pos n
subtract_one (negsuc n) = negsuc (n + 1)

-- The last `width` decimal digits of `n`, put before `tail`.
digits : ℕ → ℕ → Text → Text
digits zero n tail = tail
digits (suc width) n tail = digits width (n / 10) ((48 + n % 10) ∷ tail)

-- The year, month and day that is so many days after January 1 of the year 1.
civil : ℕ → ℕ × ℕ × ℕ
civil days =
    let z = days + 306 in
    let doe = z % 146097 in
    let yoe = (doe - doe / 1460 + doe / 36524 - doe / 146096) / 365 in
    let doy = doe - (365 * yoe + yoe / 4 - yoe / 100) in
    let mp = (5 * doy + 2) / 153 in
    let y = yoe + z / 146097 * 400 in
    let d = doy - (153 * mp + 2) / 5 + 1 in if ltb mp 10 then (y, mp + 3, d) else (y + 1, mp - 9, d)

-- `Format("20060102T150405.000000000Z0700")` in UTC
unfoldable pub format_time : ℕ → Text
unfolding digits civil
format_time t =
    let s = t / 1000000000 in
    let (y, m, d) = civil (s / 86400) in
    digits 4 y (
      digits 2 m (
        digits 2 d (
          codes "T"
          ++ digits 2 (s / 3600 % 24) (
              digits 2 (s / 60 % 60)
                (digits 2 (s % 60) (codes "." ++ digits 9 (t % 1000000000) (codes "Z")))))))

unfoldable pub file_name : DeadLetter → Text
unfolding format_time
file_name r = format_time r.created_at ++ codes "-" ++ r.id ++ codes ".json"

-- `Save`, with a new identifier and the clock for those that are not there; a failure of any of its
-- calls leaves no file behind.
unfoldable pub completed : Text → ℕ → DeadLetter → DeadLetter
completed new_id now r = record r {
  created_at = if r.created_at == 0 then now else r.created_at;
  id = if is_empty (trim_space r.id) then new_id else r.id;
}

unfoldable pub save : Bool → Text → ℕ → DeadLetter → Store → Store × Bool
unfolding completed
save fails new_id now r s =
    let r' = completed new_id now r in
    if fails then (s, false) else (
      record { files = insert_key (file_name r') (letter r') s.files; count = add_one s.count },
      true,
    )

name_before : Text → Text → Bool
name_before [] [] = false
name_before [] (y ∷ ys) = true
name_before (x ∷ xs) [] = false
name_before (x ∷ xs) (y ∷ ys) = ltb x y || (x == y && name_before xs ys)

insert_by_name : Text × File → List (Text × File) → List (Text × File)
insert_by_name e [] = e ∷ []
insert_by_name e (f ∷ fs) =
    let rest = insert_by_name e fs in if name_before f.0 e.0 then f ∷ rest else e ∷ f ∷ fs

sort_by_name : List (Text × File) → List (Text × File)
unfolding insert_by_name name_before
sort_by_name [] = []
sort_by_name (e ∷ es) = insert_by_name e (sort_by_name es)

is_directory : File → Bool
is_directory directory = true
is_directory undecodable = false
is_directory (letter r) = false

unfoldable pub is_dead_letter : Text × File → Bool
unfolding is_directory
is_dead_letter (name, f) =
    not (is_directory f) && has_prefix (reverse name) (reverse (codes ".json"))

-- What is read of a file; an error is `none`.
read_letter : Bool → File → Option DeadLetter
read_letter true f = none
read_letter false directory = none
read_letter false undecodable = none
read_letter false (letter r) = some r

prepend : Text × DeadLetter → Option (List (Text × DeadLetter)) → Option (List (Text × DeadLetter))
prepend e none = none
prepend e (some es) = some (e ∷ es)

-- The loop of `List`; the limit is looked at after a record was added.
unfoldable pub collect : (Text → Bool) → ℕ → List (Text × File) → Option (List (Text × DeadLetter))
unfolding is_dead_letter read_letter prepend
collect fails limit [] = some []
collect fails limit (e ∷ es) = elim (is_dead_letter e) [
  | false ↦ collect fails limit es
  | true ↦ elim (read_letter (fails e.0) e.1) [
    | none ↦ none
    | some r ↦ elim (leb limit 1) [
      | true ↦ some ((e.0, r) ∷ [])
      | false ↦ prepend (e.0, r) (collect fails (limit - 1) es)
    ]
  ]
]

unfoldable pub list : Bool → (Text → Bool) → ℕ → Store → Option (List (Text × DeadLetter))
unfolding collect sort_by_name
list dir_fails fails limit s =
    if dir_fails then none else collect fails limit (sort_by_name s.files)

unfoldable pub remove : Text → List (Text × File) → List (Text × File)
remove name [] = []
remove name (e ∷ es) = let rest = remove name es in if text_eq e.0 name then rest else e ∷ rest

-- `Delete`; a file that is not there cannot be removed.
unfoldable pub delete : Bool → Text → Store → Store × Bool
unfolding remove
delete fails name s =
    if fails || not (is_some (lookup_key name s.files))
    then (s, false)
    else (record { files = remove name s.files; count = subtract_one s.count }, true)

unfoldable pub scan_count : List (Text × File) → ℕ
unfolding is_dead_letter
scan_count [] = 0
scan_count (e ∷ es) = (if is_dead_letter e then 1 else 0) + scan_count es

-- `newDeadLetterStore`, over the directory that is there
unfoldable pub new_store : Text → Bool → List (Text × File) → Option Store
new_store base_dir fails files =
    if is_empty (trim_space base_dir) || fails
    then none
    else some (record { files = files; count = pos (scan_count files) })
