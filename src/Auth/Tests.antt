-- ===== src/Auth/Tests.antt =====
-- Concrete runs of `AuthService` (core/auth/service.py).
use backend_core.Common.{
  ℕ, ◌+◌, ◌≤◌, ◌≡◌, refl, Bool, true, false, none, some, List, [], ◌∷◌, ◌==◌, arith, inl,
  if◌then◌else◌,
}
use backend_core.Shared.Errors.{Error, Result, ok, err}
use backend_core.Shared.Context.{user}
use backend_core.Auth.Redis.{
  Redis, consume, delete_key, hit, incr_with_ttl, is_locked, get_value, set_value, clear,
  record_failure, check_and_mark,
}
use backend_core.Auth.Store.{
  User, UserStatus, UserTotp, RefreshToken, Tables, Auth, Crypto, AuthSettings, request, add_token,
  save_user, get_by_email, get_user_row, user_or_raise, auth_actor, is_active_user, get_totp,
}
use backend_core.Auth.Sessions.{
  TokenPair, refresh, refresh_live, rotate, encode_access_token, add_session, issue_tokens, revoke,
}
use backend_core.Auth.Factors.{challenge_ns, reset_ns, verify_totp_or_recovery, complete_two_factor}
use backend_core.Auth.Accounts.{
  verify_password, hash_of, account_key, login_scope, is_confirmed, limit_hits, refuse_login, admit,
  authenticate, change_password, reset_password,
}
use backend_core.Auth.Requests.{AuthRequest, sign_up, log_in, renew, log_out}
use backend_core.Auth.Families.{live_count}
use backend_core.Auth.Served.{serve_all, live_count-serve_all}
use backend_core.Auth.Replay.{undisturbed, refresh-replayed}
use backend_core.Auth.Passwords.{IsHashing, change_password-refuses, reset_password-refuses}
use backend_core.Auth.Logins.{authenticate-tokens}
use backend_core.Auth.Lockout.{Guess, guess, guess_all, lockout}
use backend_core.Auth.Codes.{IsAccepted, code-replayed}
use backend_core.Auth.Challenges.{
  counted, counted_state, complete_two_factor-once, complete_two_factor-tokens,
}

-- A toy of the libraries.
abbrev toy : Crypto
toy = record {
  normalize = λ e. e;
  hash_password = λ salt p. p + 1;
  verify_hash = λ h p. h == p + 1;
  dummy_hash = 0;
  opaque_token = λ n. n + 100;
  hash_token = λ t. t + 1;
  sign = λ c. c.jti;
  totp_secret = λ n. n;
  totp_matches = λ secret code now. code == secret;
  encrypt = λ n. n;
  decrypt = ok;
  recovery_code = λ n. n + 1000;
  hash_recovery_code = λ c. c;
}

abbrev settings : AuthSettings
settings = record {
  register_ip_limit = 10;
  access_ttl = 900;
  refresh_ttl = 3600;
  challenge_ttl = 300;
  reset_ttl = 900;
  max_failures = 2;
  lockout_seconds = 900;
}

abbrev person : User
person = record {
  id = 1;
  email = 7;
  password_hash = 6;
  locale = 0;
  status = UserStatus.active;
  last_login_at = none;
}

abbrev session : RefreshToken
session = record {
  id = 3;
  user_id = 1;
  family_id = 2;
  token_hash = 51;
  expires_at = 9000000000;
  rotated_at = none;
  revoked_at = none;
  revoked_reason = none;
}

abbrev factor : UserTotp
factor = record { user_id = 1; secret_encrypted = 44; confirmed_at = some 0 }

abbrev stored : List UserTotp → List RefreshToken → Tables
stored totps tokens = record {
  users = person ∷ [];
  totps = totps;
  recovery_codes = [];
  tokens = tokens;
  outbox = [];
}

abbrev no_cells : Redis
no_cells = record { cells = λ k. none }

-- Redis with a value under the keys of a prefix.
abbrev one_value : ℕ → ℕ → Redis
one_value prefix v = record {
  cells = λ k.
      if k.prefix == prefix then some (record { value = v; expires_at = 9000000000 }) else none;
}

abbrev start : Tables → Redis → Auth
start t r = record {
  now = 1000000;
  next_id = 10;
  tables = t;
  saved = t;
  redis = r;
  published = [];
  mails = [];
}

abbrev with_session : Auth
with_session = start (stored [] (session ∷ [])) no_cells

abbrev pair : TokenPair
pair = record { access_token = 10; refresh_token = 111; expires_in = 900 }

abbrev renewed : Auth
renewed = (request (refresh undisturbed toy settings 50) with_session).1

abbrev second_use : Result TokenPair × Auth
second_use =
    request (refresh undisturbed toy settings 50) (record renewed { now = renewed.now + 5 })

refresh-replayed_example :
    (second_use.0 ≡ err Error.authentication_failed)
    × ((request
          (refresh undisturbed toy settings 111)
          (record second_use.1 { now = second_use.1.now + 6 })).0
        ≡ err Error.authentication_failed)
unfolding request refresh refresh_live rotate encode_access_token add_session add_token
refresh-replayed_example = refresh-replayed toy settings 50 5 6 undisturbed with_session pair refl

-- Registration, a login, two refreshes and a logout.
abbrev history : List (ℕ × AuthRequest)
history =
    (0, sign_up 7 5 0 none)
    ∷ (1, log_in 7 5 none)
    ∷ (2, renew undisturbed 114)
    ∷ (3, renew undisturbed 114)
    ∷ (4, log_out 114)
    ∷ []

abbrev nothing : Auth
nothing =
    start (record { users = []; totps = []; recovery_codes = []; tokens = []; outbox = [] })
      no_cells

live_count-serve_all_example :
    live_count 13 (serve_all toy settings history nothing).tables.tokens ≤ 1
live_count-serve_all_example =
    live_count-serve_all toy settings history nothing 13
      (tt, (tt, ((λ n i f t v. (v, λ h w. w)), ((λ n i f t v. (v, λ h w. w)), (tt, tt)))))
      (((λ f. omega arith), tt, tt), ((λ f. omega arith), tt, tt))

toy-IsHashing : IsHashing toy
toy-IsHashing salt password = (ground arith, ground arith)

abbrev changed : Auth
changed = (request (change_password toy (user (some 1)) 5 8) with_session).1

change_password-refuses_example :
    ((request (refresh undisturbed toy settings 50) (record changed { now = changed.now + 5 })).0
      ≡ err Error.authentication_failed)
    × (verify_password toy (hash_of (get_user_row 1 changed.tables)) 8 ≡ true)
unfolding request change_password auth_actor user_or_raise verify_password save_user revoke
change_password-refuses_example =
    change_password-refuses toy settings (user (some 1)) 5 8 50 5 1 undisturbed with_session session
      toy-IsHashing refl refl refl refl

abbrev resetting : Auth
resetting = start (stored [] (session ∷ [])) (one_value reset_ns 1)

abbrev reset_done : Auth
reset_done = (request (reset_password toy 20 8) resetting).1

reset_password-refuses_example :
    ((request
        (refresh undisturbed toy settings 50)
        (record reset_done { now = reset_done.now + 5 })).0
      ≡ err Error.authentication_failed)
    × (verify_password toy (hash_of (get_user_row 1 reset_done.tables)) 8 ≡ true)
    × ((request (reset_password toy 20 9) (record reset_done { now = reset_done.now + 5 })).0
        ≡ err Error.authentication_failed)
unfolding request reset_password consume get_value delete_key user_or_raise save_user revoke
reset_password-refuses_example =
    reset_password-refuses toy settings 20 8 50 9 5 1 undisturbed resetting session toy-IsHashing
      refl refl refl refl

authenticate-tokens_example :
    (u : User) × (get_by_email toy 7 with_session.tables ≡ some u)
    × (is_active_user u.status ≡ true)
    × (verify_password toy (some u.password_hash) 5 ≡ true)
    × (is_locked 1000000 (account_key (some u) 7) (hit 1000000 (login_scope 3) 30 60 no_cells).1
        ≡ false)
    × (is_confirmed (get_totp u.id with_session.tables) ≡ false)
unfolding authenticate limit_hits hit incr_with_ttl get_by_email is_locked get_value verify_password
    admit clear delete_key issue_tokens encode_access_token add_session add_token save_user
authenticate-tokens_example =
    authenticate-tokens toy settings 7 5 (some 3) with_session
      (record { access_token = 10; refresh_token = 112; expires_in = 900 }) refl

abbrev wrong : ℕ → Guess
wrong n = record { delay = 1; password = n; ip = some n }

abbrev right : Guess
right = record { delay = 1; password = 5; ip = none }

lockout_example :
    (guess toy settings 7 right (guess_all toy settings 7 (wrong 1 ∷ wrong 2 ∷ []) with_session)).0
    ≡ err Error.rate_limited
unfolding request authenticate limit_hits hit incr_with_ttl get_by_email is_locked get_value
    verify_password refuse_login record_failure set_value
lockout_example =
    lockout toy settings 7 (wrong 1) (wrong 2 ∷ []) right with_session (refl, (refl, tt)) refl refl
      (omega arith) (omega arith) (omega arith)

abbrev with_factor : Auth
with_factor = start (stored (factor ∷ []) []) (one_value challenge_ns 1)

abbrev verified : Result Bool × Auth
verified = verify_totp_or_recovery toy 1 44 with_factor

code-replayed_example :
    (verify_totp_or_recovery toy 1 44 (record verified.1 { now = verified.1.now + 5 })).0 ≡ ok false
unfolding verify_totp_or_recovery check_and_mark get_value set_value
code-replayed_example = code-replayed toy 1 44 5 with_factor refl (inl refl) (omega arith)

abbrev completed : Auth
completed = (request (complete_two_factor toy settings 30 44) with_factor).1

complete_two_factor-once_example :
    (request
      (complete_two_factor toy settings 30 45)
      (record completed { now = completed.now + 5 })).0
    ≡ err Error.authentication_failed
complete_two_factor-once_example = complete_two_factor-once toy settings 30 44 45 5 with_factor

complete_two_factor-tokens_example :
    (u : ℕ) × (person : User) × ((consume 1000000 challenge_ns 31 with_factor.redis).0 ≡ some u)
    × ((counted toy settings 30 44 with_factor u).0 ≡ true)
    × (get_user_row u with_factor.tables ≡ some person)
    × (is_active_user person.status ≡ true)
    × IsAccepted toy u 44 (counted_state toy settings 30 44 with_factor u)
unfolding complete_two_factor consume hit incr_with_ttl verify_totp_or_recovery check_and_mark
    get_value set_value delete_key issue_tokens encode_access_token add_session add_token save_user
complete_two_factor-tokens_example =
    complete_two_factor-tokens toy settings 30 44 with_factor
      (record { access_token = 10; refresh_token = 112; expires_in = 900 }) refl
