-- ===== src/Auth/Redis.antt =====
-- core/auth/rate_limit.py, and the part of Redis that it uses: keys with a value and an expiry. A key
-- is its prefix with two further parts; an instant counts microseconds.
use backend_core.Common.{
  ℕ, ◌+◌, ◌-◌, ◌*◌, ◌^◌, Bool, true, false, ◌&&◌, Option, none, some, ◌==◌, leb, ltb, if◌then◌else◌,
  is_some,
}
use backend_core.Shared.Clock.{seconds}

pub record Key : Type 0 where
  pub prefix : ℕ
  pub name : ℕ
  pub part : ℕ

pub record Cell : Type 0 where
  pub value : ℕ
  pub expires_at : ℕ

pub record Redis : Type 0 where
  pub cells : Key → Option Cell

abbrev pub same_cell : Key → Key → Bool
same_cell a b = (a.prefix == b.prefix && a.name == b.name) && a.part == b.part

-- A key whose time has come is gone.
abbrev pub alive : ℕ → Option Cell → Option ℕ
alive now none = none
alive now (some c) = if ltb now c.expires_at then some c.value else none

-- `GET`
unfoldable pub get_value : ℕ → Key → Redis → Option ℕ
get_value now k r = alive now (r.cells k)

-- `SET ... EX`
unfoldable pub set_value : ℕ → Key → ℕ → ℕ → Redis → Redis
set_value now k v ttl r = record {
  cells = λ j.
      if same_cell j k
      then some (record { value = v; expires_at = now + seconds ttl })
      else r.cells j;
}

-- `DEL`
unfoldable pub delete_key : Key → Redis → Redis
delete_key k r = record { cells = λ j. if same_cell j k then none else r.cells j }

-- A counter's cell after `INCR` and `EXPIRE NX`: the window of a live counter is not extended.
abbrev pub counter_cell : ℕ → ℕ → Option Cell → Cell
counter_cell now ttl none = record { value = 1; expires_at = now + seconds ttl }
counter_cell now ttl (some c) =
    if ltb now c.expires_at
    then record c { value = c.value + 1 }
    else record { value = 1; expires_at = now + seconds ttl }

-- `_incr_with_ttl`
unfoldable pub incr_with_ttl : ℕ → Key → ℕ → Redis → ℕ × Redis
incr_with_ttl now k ttl r =
    let cell = counter_cell now ttl (r.cells k) in
    (cell.value, record { cells = λ j. if same_cell j k then some cell else r.cells j })

-- `RateLimiter.hit`, where the key holds the scope
unfoldable pub hit : ℕ → Key → ℕ → ℕ → Redis → Bool × Redis
unfolding incr_with_ttl
hit now k limit window r = let (count, r') = incr_with_ttl now k window r in (leb count limit, r')

-- `FAIL_PREFIX`, `LOCK_PREFIX`, `TOTP_USED_PREFIX`
abbrev pub fail_prefix : ℕ
fail_prefix = 2

abbrev pub lock_prefix : ℕ
lock_prefix = 3

abbrev pub totp_used_prefix : ℕ
totp_used_prefix = 4

-- An account's key: of a user by id, or of an address that nobody has.
pub record Account : Type 0 where
  pub by_email : Bool
  pub name : ℕ

abbrev pub account_cell : ℕ → Account → Key
account_cell prefix a = record {
  prefix = prefix;
  name = a.name;
  part = if a.by_email then 1 else 0;
}

-- `LoginThrottle.is_locked`
unfoldable pub is_locked : ℕ → Account → Redis → Bool
unfolding get_value
is_locked now a r = is_some (get_value now (account_cell lock_prefix a) r)

-- One minute, doubled with each failure beyond the limit, up to the lockout's length.
abbrev pub lock_duration : ℕ → ℕ → ℕ
lock_duration lockout_seconds over =
    let duration = 60 * 2 ^ over in
    if leb duration lockout_seconds then duration else lockout_seconds

-- `LoginThrottle.record_failure`
unfoldable pub record_failure : ℕ → ℕ → ℕ → Account → Redis → Redis
unfolding incr_with_ttl set_value
record_failure max_failures lockout_seconds now a r =
    let (failures, r') = incr_with_ttl now (account_cell fail_prefix a) lockout_seconds r in
    if leb max_failures failures
    then set_value now (account_cell lock_prefix a) 1
        (lock_duration lockout_seconds (failures - max_failures)) r'
    else r'

-- `LoginThrottle.clear`
unfoldable pub clear : Account → Redis → Redis
unfolding delete_key
clear a r = delete_key (account_cell lock_prefix a) (delete_key (account_cell fail_prefix a) r)

-- `TotpReplayGuard.check_and_mark`, with its window of 90 seconds
unfoldable pub check_and_mark : ℕ → ℕ → ℕ → Redis → Bool × Redis
unfolding get_value set_value
check_and_mark now u code r =
    let key : Key = record { prefix = totp_used_prefix; name = u; part = code } in
    if is_some (get_value now key r) then (false, r) else (true, set_value now key 1 90 r)

-- `EphemeralTokenStore.put`
unfoldable pub put_token : ℕ → ℕ → ℕ → ℕ → ℕ → Redis → Redis
unfolding set_value
put_token now namespace hash value ttl r =
    set_value now (record { prefix = namespace; name = hash; part = 0 }) value ttl r

-- `EphemeralTokenStore.consume`
unfoldable pub consume : ℕ → ℕ → ℕ → Redis → Option ℕ × Redis
unfolding get_value delete_key
consume now namespace hash r =
    let key : Key = record { prefix = namespace; name = hash; part = 0 } in
    (get_value now key r, delete_key key r)
