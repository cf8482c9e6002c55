-- ===== src/NatsBus/Headers.antt =====
-- The headers of an encoded envelope (natsbus/natsbus.go), read back one by one.
use service_runtime.Base.{
  not, ◌&&◌, [], ◌∷◌, ◌==◌, if◌then◌else◌, Text, is_empty, text_eq, trim_space, ◌≡◌, refl, arith,
  lookup_key, lookup_key-insert_key,
}
use service_runtime.NatsBus.Envelope.{
  Header, Envelope, set_header, get_header, set_nonempty, header_spec_version, header_id,
  header_type, header_source, header_time, header_data_content_type, header_tenant_id,
  header_trace_parent, header_trace_state, header_baggage,
}
use service_runtime.NatsBus.Codec.{Codecs, protobuf_type, envelope_header}

pub get_header-set_header :
    (j k v : Text) (h : Header)
    → get_header j (set_header k v h) ≡ (if text_eq k j then v else get_header j h)
unfolding get_header set_header
get_header-set_header j k v h = ground (arith, lookup_key-insert_key k j (v ∷ []) h)

pub get_header-set_nonempty :
    (j k v : Text) (h : Header)
    → get_header j (set_nonempty k v h)
      ≡ (if text_eq k j && not (is_empty v) then v else get_header j h)
unfolding set_nonempty
get_header-set_nonempty j k v h = ground (arith, get_header-set_header j k v h)

ruleset header_laws = (get_header-set_header, get_header-set_nonempty)

-- A value that is left out if it is empty reads as empty.
or_empty : (v : Text) → (if not (is_empty v) then v else []) ≡ v
or_empty [] = refl
or_empty (c ∷ v) = refl

module _ {P : Type 0} (c : Codecs P) (e : Envelope P) where
  pub get-spec_version : get_header header_spec_version (envelope_header c e) ≡ e.spec_version
  unfolding envelope_header text_eq
  get-spec_version = simp header_laws

  pub get-id : get_header header_id (envelope_header c e) ≡ e.id
  unfolding envelope_header text_eq
  get-id = simp header_laws

  pub get-type_name : get_header header_type (envelope_header c e) ≡ e.type_name
  unfolding envelope_header text_eq
  get-type_name = simp header_laws

  pub get-source : get_header header_source (envelope_header c e) ≡ e.source
  unfolding envelope_header text_eq
  get-source = simp header_laws

  pub get-content_type : get_header header_data_content_type (envelope_header c e) ≡ (
      if is_empty (trim_space e.data_content_type)
      then protobuf_type
      else trim_space e.data_content_type)
  unfolding envelope_header text_eq
  get-content_type = simp header_laws

  pub get-time :
      get_header header_time (envelope_header c e)
      ≡ (if e.time == 0 then [] else c.format_time e.time)
  unfolding envelope_header text_eq get_header lookup_key
  get-time = simp header_laws (or_empty (if e.time == 0 then [] else c.format_time e.time))

  pub get-tenant_id : get_header header_tenant_id (envelope_header c e) ≡ e.tenant_id
  unfolding envelope_header text_eq get_header lookup_key
  get-tenant_id = simp header_laws (or_empty e.tenant_id)

  pub get-trace_parent : get_header header_trace_parent (envelope_header c e) ≡ e.trace_parent
  unfolding envelope_header text_eq get_header lookup_key
  get-trace_parent = simp header_laws (or_empty e.trace_parent)

  pub get-trace_state : get_header header_trace_state (envelope_header c e) ≡ e.trace_state
  unfolding envelope_header text_eq get_header lookup_key
  get-trace_state = simp header_laws (or_empty e.trace_state)

  pub get-baggage : get_header header_baggage (envelope_header c e) ≡ e.baggage
  unfolding envelope_header text_eq get_header lookup_key
  get-baggage = simp header_laws (or_empty e.baggage)
