-- ===== src/S3client/Examples.antt =====
-- A test of proxies at a small configuration.
use proxs.Prelude.{◌≡◌, refl, some, [], nat_eq, list_beq, list_eq, codes}
use proxs.Config.{StorageConfig, ProxyConfig, new_storage}
use proxs.S3client.Settings.{proxy_for, scheme_of, new_client, route}

-- The endpoint is named in `no_proxy`.
abbrev office : ProxyConfig
office = record { http_proxy = codes "p"; https_proxy = []; no_proxy = codes "s3" }

abbrev local_s3 : StorageConfig
local_s3 = record (new_storage (codes "s")) { endpoint = codes "s3" }

-- The host is not spared.
office_bypassed : route local_s3 office ≡ some (codes "p")
unfolding new_client proxy_for scheme_of list_beq
office_bypassed = refl
