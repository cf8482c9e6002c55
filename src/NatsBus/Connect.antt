-- ===== src/NatsBus/Connect.antt =====
-- The setup of a publisher (natsbus/natsbus.go), over the NATS client of NatsBus/Client.
use service_runtime.Base.{
  ℕ, not, none, some, [], ◌∷◌, ◌++◌, if◌then◌else◌, ℤ, pos, is_nonpositive, Text, codes, is_empty,
  trim_space,
}
use service_runtime.NatsBus.Envelope.{
  WireFormat, unset, json, proto, proto_headers, other, nats_url_required, stream_name_required,
  subject_prefix_required, connect_failed, jetstream_failed, create_stream_failed, Result, ok, err,
}
use service_runtime.NatsBus.Client.{NatsClient, StreamConfig}
use service_runtime.NatsBus.Publisher.{Publisher, dot, event_source, trim_suffix}

-- `Options`; a policy or a kind of storage that is not set is 0.
pub record Options : Type 0 where
  pub retention : ℕ
  pub max_age : ℤ
  pub storage : ℕ
  pub wire_format : WireFormat

-- 7 days
abbrev pub default_max_age : ℤ
default_max_age = pos 604800000000000

default_format : WireFormat → WireFormat
default_format unset = json
default_format json = json
default_format proto = proto
default_format proto_headers = proto_headers
default_format other = other

-- `jetstream.LimitsPolicy` and `jetstream.FileStorage` are 0 too.
unfoldable pub with_defaults : Options → Options
unfolding default_format
with_defaults o = record o {
  max_age = if is_nonpositive o.max_age then default_max_age else o.max_age;
  wire_format = default_format o.wire_format;
}

-- What `Connect` keeps: the publisher, and the connection that its `closeFunc` closes.
pub record Connected : Type 0 where
  pub connection : ℕ
  pub publisher : Publisher

unfoldable pub stream_config : Options → Text → Text → StreamConfig
stream_config o name prefix = record {
  name = name;
  subjects = (prefix ++ codes ".>") ∷ [];
  retention = o.retention;
  max_age = o.max_age;
  storage = o.storage;
}

module _ {W : Type 0} (nats : NatsClient W) where
  open nats use {connect, new_jetstream, create_stream, close}

  -- The calls of the NATS client, once the arguments are checked.
  unfoldable pub connect_stream : Options → Text → Text → Text → W → W × Result Connected
  connect_stream o nats_url name prefix w =
      let (w1, connection) = connect nats_url w in
      elim connection [
        | none ↦ (w1, err connect_failed)
        | some c ↦
            let (w2, has_jetstream) = new_jetstream c w1 in
            let (w3, created) = create_stream (stream_config o name prefix) w2 in
            if not has_jetstream
            then (close c w2, err jetstream_failed)
            else if not created
            then (close c w3, err create_stream_failed)
            else (
              w3,
              ok (record {
                connection = c;
                publisher = record {
                  subject_prefix = prefix;
                  source = event_source prefix;
                  wire_format = o.wire_format;
                };
              }),
            )
      ]

  unfoldable pub connect_with_options : Text → Text → Text → Options → W → W × Result Connected
  connect_with_options nats_url stream_name subject_prefix opts w =
      let url = trim_space nats_url in
      let name = trim_space stream_name in
      let prefix = trim_suffix (trim_space subject_prefix) dot in
      if is_empty url
      then (w, err nats_url_required)
      else if is_empty name
      then (w, err stream_name_required)
      else if is_empty prefix
      then (w, err subject_prefix_required)
      else connect_stream (with_defaults opts) url name prefix w

  -- `Publisher.Close`, on the publisher that was returned or on nil
  unfoldable pub close_publisher : Result Connected → W → W
  close_publisher (ok p) w = close p.connection w
  close_publisher (err e) w = w
