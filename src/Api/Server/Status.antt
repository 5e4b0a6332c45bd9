-- ===== src/Api/Server/Status.antt =====
-- The handlers that tell the server's state: handleStatus, handlePath and handleConfig of
-- internal/api/api.go. An int64 is given by its 64 bits, so it is negative from 2 ^ 63 on; the
-- headroom of the configuration is not negative.
use proxs.Prelude.{
  ℕ, ◌+◌, ◌*◌, ◌%◌, ◌^◌, ◌<◌, ◌≡◌, refl, Bool, false, Option, none, some, List, [], ◌∷◌, arith,
  if◌then◌else◌, ◌==◌, eq_iff, nat_eq, list_eq, Text, lookup, IsMap, ◌≢◌, ◌∙◌,
}
use proxs.FilePath.{FilePath}
use proxs.Cache.Entry.{path}
use proxs.Api.Server.{Server, get_client, total_size, health_of, usage_of, check_all_health}

pub data Reply {ℓ} (A : Type ℓ) : Type ℓ where
  missing_parameter unknown_storage : Reply A
  reply : A → Reply A

-- `StatusResponse`.
pub record StatusResponse : Type 0 where
  pub storage_id : Text
  pub online : Bool
  pub total : ℕ
  pub used : ℕ
  pub available : ℕ

-- The zero value for a missing key.
abbrev pub or_false : Option Bool → Bool
or_false none = false
or_false (some b) = b

abbrev pub or_zero : Option ℕ → ℕ
or_zero none = 0
or_zero (some n) = n

module _ {ℓ} {Client : Type ℓ} where
  unfoldable pub status_of : Text → Server Client → StatusResponse
  status_of storage s =
      let headroom = (s.cfg.headroom_gb * 1073741824) % 2 ^ 64 in
      let used = or_zero (lookup storage s.usage) in
      record {
        storage_id = storage;
        online = or_false (lookup storage s.health);
        total = (used + headroom) % 2 ^ 64;
        used = used;
        available = headroom;
      }

  -- `handleStatus`.
  unfoldable pub handle_status : Text → Server Client → Reply StatusResponse
  unfolding status_of get_client
  handle_status storage s =
      if storage == [] then missing_parameter else elim (get_client storage s) [
        | none ↦ unknown_storage
        | some _ ↦ reply (status_of storage s)
      ]

  -- `handlePath`.
  unfoldable pub handle_path : Text → Text → Server Client → Reply FilePath
  unfolding get_client
  handle_path storage key s = elim (get_client storage s) [
    | none ↦ unknown_storage
    | some _ ↦ reply (path s.cache storage key)
  ]

  -- `handleConfig`.
  unfoldable pub handle_config : Server Client → FilePath
  handle_config s = s.cfg.cache_dir

-- The sum of a bucket's sizes.
abbrev pub sum : List ℕ → ℕ
sum [] = 0
sum (n ∷ ns) = n + sum ns

total_size-sum :
    (ns : List ℕ) (total : ℕ) → total + sum ns < 2 ^ 63 → total_size ns total ≡ total + sum ns
unfolding total_size
total_size-sum [] total b = omega arith
total_size-sum (n ∷ ns) total b =
    let fits : (total + n) % 2 ^ 64 ≡ total + n = omega arith in
    rw fits (omega (arith, total_size-sum ns (total + n)))

module _ {ℓ} {Client : Type ℓ} (reachable : Client → Bool) (sizes : Client → Option (List ℕ)) where
  health_of-lookup :
      (storage : Text) (clients : List (Text × Client)) (c : Client)
      → lookup storage clients ≡ some c
      → lookup storage (health_of reachable sizes clients) ≡ some (reachable c)
  unfolding health_of
  health_of-lookup storage [] c e = ground arith
  health_of-lookup storage ((id, d) ∷ rest) c e = ground (arith, health_of-lookup storage rest c)

  usage_of-none :
      (storage : Text) (clients : List (Text × Client))
      → lookup storage clients ≡ none
      → lookup storage (usage_of reachable sizes clients) ≡ none
  unfolding usage_of
  usage_of-none storage [] e = refl
  usage_of-none storage ((id, d) ∷ rest) e = ground (arith, usage_of-none storage rest)

  -- The objects of a bucket, none where they cannot be told.
  abbrev pub measured : Client → List ℕ
  measured c = if reachable c then elim (sizes c) [ none ↦ [] | some ns ↦ ns ] else []

  usage_of-lookup :
      (storage : Text) (clients : List (Text × Client)) (c : Client)
      → IsMap clients
      → lookup storage clients ≡ some c
      → or_zero (lookup storage (usage_of reachable sizes clients)) ≡ total_size (measured c) 0
  unfolding usage_of total_size
  usage_of-lookup storage [] c m e = ground arith
  usage_of-lookup storage ((id, d) ∷ rest) c m e =
      ground (arith, usage_of-lookup storage rest c, usage_of-none storage rest, eq_iff id storage)

  -- After a health check the status of a storage tells whether its bucket was reached and the sum of
  -- the sizes that the bucket lists, zero if it does not; the total exceeds what is used by the
  -- headroom, and no number is negative, as long as the sum and the headroom fit in an int64.
  pub handle_status-check_all_health :
      (storage : Text) (s : Server Client) (c : Client)
      → storage ≢ []
      → IsMap s.clients
      → lookup storage s.clients ≡ some c
      → sum (measured c) + s.cfg.headroom_gb * 1073741824 < 2 ^ 63
      → handle_status storage (check_all_health reachable sizes s)
        ≡ reply (record {
          storage_id = storage;
          online = reachable c;
          total = sum (measured c) + s.cfg.headroom_gb * 1073741824;
          used = sum (measured c);
          available = s.cfg.headroom_gb * 1073741824;
        })
  unfolding handle_status status_of get_client check_all_health
  handle_status-check_all_health storage s c n m e b =
      let named : (storage == []) ≡ false = ground (arith, eq_iff storage []) in
      let online = health_of-lookup storage s.clients c e in
      let summed : total_size (measured c) 0 ≡ sum (measured c) =
        omega (arith, total_size-sum (measured c) 0, b) in
      let used = usage_of-lookup storage s.clients c m e ∙ summed in
      let room : (s.cfg.headroom_gb * 1073741824) % 2 ^ 64 ≡ s.cfg.headroom_gb * 1073741824 =
        omega (arith, b) in
      let fits : (sum (measured c) + s.cfg.headroom_gb * 1073741824) % 2 ^ 64
          ≡ sum (measured c) + s.cfg.headroom_gb * 1073741824 =
        omega (arith, b) in
      rw (handle_status, named, e, status_of, online, used, room, fits) refl
