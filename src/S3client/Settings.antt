-- ===== src/S3client/Settings.antt =====
-- New of internal/s3client/client.go: what a client is set up with. The timeouts, which keep no call
-- from hanging, are not modelled.
use proxs.Prelude.{
  ℕ, ◌≡◌, refl, ◌≢◌, ◌⊎◌, inl, inr, Bool, true, false, not, ◌&&◌, ◌||◌, Option, none, some, [],
  ◌++◌, arith, if◌then◌else◌, Bool-cases, ◌==◌, eq_iff, nat_eq, list_eq, Text, codes, list_beq,
}
use proxs.Config.{StorageConfig, ProxyConfig}

-- The settings that go to the library, and the fields of `Client`. `proxy` is the URL that a request
-- of a scheme goes through.
pub record ClientSettings : Type 0 where
  pub endpoint : Text
  pub region : Text
  pub access_key : Text
  pub secret_key : Text
  pub path_style : Bool
  pub proxy : Text → Option Text
  pub bucket : Text
  pub id : Text
  pub part_size_mb : ℕ

-- `transport.Proxy`.
unfoldable pub proxy_for : ProxyConfig → Text → Option Text
proxy_for proxy scheme =
    if scheme == codes "https" && not (proxy.https_proxy == [])
    then some proxy.https_proxy
    else if not (proxy.http_proxy == [])
    then some proxy.http_proxy
    else none

unfoldable pub scheme_of : StorageConfig → Text
scheme_of cfg = if not cfg.use_ssl then codes "http" else codes "https"

-- `New`. Without proxies the transport has none.
unfoldable pub new_client : StorageConfig → ProxyConfig → ClientSettings
unfolding proxy_for scheme_of
new_client cfg proxy = record {
  endpoint = scheme_of cfg ++ codes "://" ++ cfg.endpoint;
  region = cfg.region;
  access_key = cfg.access_key;
  secret_key = cfg.secret_key;
  path_style = cfg.path_style;
  proxy = λ scheme.
      if not (proxy.https_proxy == []) || not (proxy.http_proxy == [])
      then proxy_for proxy scheme
      else none;
  bucket = cfg.bucket;
  id = cfg.storage_id;
  part_size_mb = if cfg.part_size_mb == 0 then 64 else cfg.part_size_mb;
}

scheme-eq : (cfg : StorageConfig) → (scheme_of cfg == codes "https") ≡ cfg.use_ssl
unfolding scheme_of list_beq
scheme-eq cfg = elim (Bool-cases cfg.use_ssl) [ inl c ↦ rw c refl | inr c ↦ rw c refl ]

-- The URL that the client's requests go through, if any.
abbrev pub route : StorageConfig → ProxyConfig → Option Text
route cfg proxy = (new_client cfg proxy).proxy (scheme_of cfg)

-- The requests of a client go straight to S3 if no proxy is set, and otherwise through the HTTPS
-- proxy if the storage uses SSL and one is set, or through the HTTP proxy if one is set, whatever
-- hosts `no_proxy` names.
pub new_client-route :
    (cfg : StorageConfig) (proxy : ProxyConfig)
    → ((cfg.use_ssl ≡ true) × (proxy.https_proxy ≢ []) × (route cfg proxy ≡ some proxy.https_proxy))
      ⊎ ((cfg.use_ssl ≡ false) ⊎ (proxy.https_proxy ≡ []))
        × (((proxy.http_proxy ≢ []) × (route cfg proxy ≡ some proxy.http_proxy))
            ⊎ ((proxy.http_proxy ≡ []) × (route cfg proxy ≡ none)))
unfolding new_client proxy_for
new_client-route cfg proxy =
    ground (arith, scheme-eq cfg, eq_iff proxy.https_proxy [], eq_iff proxy.http_proxy [])
