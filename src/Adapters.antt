-- ===== src/Adapters.antt =====
-- internal/format/registry.go: the adapters of the protocols, by protocol, for clients and for
-- providers, each with and without streaming. An adapter is represented by its protocol and a value of
-- a parameter type; the lock makes each method one step.
pub mod Laws
mod Tests
use moon_bridge.Prelude.{
  String, Bool, Option, none, some, List, [], map, if◌then◌else◌, string_comparable,
}
use moon_bridge.Prelude.GoMap.{GoMap, get, put, has}

module _ (A : Type 0) where
  -- `Registry`
  pub record Registry : Type 0 where
    pub client_adapters : GoMap String A
    pub provider_adapters : GoMap String A
    pub client_streams : GoMap String A
    pub provider_streams : GoMap String A

  -- `NewRegistry`
  abbrev pub new_registry : Registry
  new_registry = record {
    client_adapters = [];
    provider_adapters = [];
    client_streams = [];
    provider_streams = [];
  }

  -- The map after a registration, and the protocol if it is taken, in which case nothing is written.
  unfoldable pub register : String → A → GoMap String A → Option String × GoMap String A
  register protocol adapter m =
      if has protocol m then (some protocol, m) else (none, put protocol adapter m)

  -- `RegisterClient`
  abbrev pub register_client : String → A → Registry → Option String × Registry
  register_client protocol adapter r =
      let (error, m) = register protocol adapter r.client_adapters in
      (error, record r { client_adapters = m })

  -- `RegisterProvider`
  abbrev pub register_provider : String → A → Registry → Option String × Registry
  register_provider protocol adapter r =
      let (error, m) = register protocol adapter r.provider_adapters in
      (error, record r { provider_adapters = m })

  -- `RegisterClientStream`
  abbrev pub register_client_stream : String → A → Registry → Option String × Registry
  register_client_stream protocol adapter r =
      let (error, m) = register protocol adapter r.client_streams in
      (error, record r { client_streams = m })

  -- `RegisterProviderStream`
  abbrev pub register_provider_stream : String → A → Registry → Option String × Registry
  register_provider_stream protocol adapter r =
      let (error, m) = register protocol adapter r.provider_streams in
      (error, record r { provider_streams = m })

  -- `GetClient`, `GetProvider`, `GetClientStream` and `GetProviderStream`
  abbrev pub get_client : String → Registry → Option A
  get_client protocol r = get protocol r.client_adapters

  abbrev pub get_provider : String → Registry → Option A
  get_provider protocol r = get protocol r.provider_adapters

  abbrev pub get_client_stream : String → Registry → Option A
  get_client_stream protocol r = get protocol r.client_streams

  abbrev pub get_provider_stream : String → Registry → Option A
  get_provider_stream protocol r = get protocol r.provider_streams

  -- `ProviderProtocols` and `ClientProtocols`
  abbrev pub provider_protocols : Registry → List String
  provider_protocols r = map (λ e. e.0) r.provider_adapters

  abbrev pub client_protocols : Registry → List String
  client_protocols r = map (λ e. e.0) r.client_adapters
