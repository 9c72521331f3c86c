-- ===== src/Notifications/Delivery.antt =====
-- What the dispatcher does to a claimed row (core/notifications/dispatcher.py).
use backend_core.Common.{
  ℕ, ◌+◌, ◌≤◌, ◌<◌, ◌≡◌, ◌≢◌, ◌∙◌, ◌⊎◌, refl, sym, subst, Bool, true, false, ◌&&◌, Option, List, [],
  ◌∷◌, ◌==◌, leb, map, arith, inl, inr, Bool-cases,
}
use backend_core.Shared.Errors.{Error, ok, err, Result-cases}
use backend_core.Notifications.Outbox.{
  Row, Setting, Message, Outcome, delivered, permanent, temporary, Channel, DispatcherConfig,
  Dispatch, sms, try_consume,
}
use backend_core.Shared.Clock.{seconds}
use backend_core.Notifications.Dispatcher.{
  is_due_state, update_row, channel_of, sent_row, backoff, failed_row, dead_row, bury, let_through,
  finish, deliver_message, process_row,
}
use backend_core.Notifications.Rows.{changed}

-- What a pass may leave of a claimed row: it is finished, or it failed and falls due again within
-- sixteen minutes, below the limit of attempts.
abbrev pub Rests : DispatcherConfig → ℕ → Row → Row → Type 0
Rests env now claim r =
    (is_due_state r.status ≡ false)
    ⊎ ((is_due_state r.status ≡ true)
        × (r.attempts ≡ claim.attempts)
        × (claim.attempts < env.max_attempts)
        × (r.next_retry_at ≤ now + seconds 960)
        × (r.tenant_id ≡ claim.tenant_id)
        × (r.channel ≡ claim.channel)
        × (r.template_key ≡ claim.template_key)
        × (r.locale ≡ claim.locale)
        × (r.params ≡ claim.params))

backoff-le : (n : ℕ) → backoff n ≤ 960
backoff-le n = ground arith

-- A row's template is unknown or renders, and its channel can be built.
abbrev pub Serves : DispatcherConfig → ℕ → ℕ → ℕ → ℕ → Option ℕ → List Setting → Type 0
Serves env key locale params channel tenant settings =
    ((env.render key locale params ≡ err Error.not_found)
      ⊎ ((m : Option ℕ × ℕ) × (env.render key locale params ≡ ok m)))
    × ((c : Channel) × (channel_of env channel tenant settings ≡ ok c))

abbrev pub IsServed : DispatcherConfig → Row → List Setting → Type 0
IsServed env r settings = Serves env r.template_key r.locale r.params r.channel r.tenant_id settings

-- A call that changes no row but its own; a row that is served comes to rest.
abbrev pub Touches : DispatcherConfig → Row → Dispatch → Dispatch → Type 0
Touches env c st st' =
    (f : Row → Row) × ((r : Row) → (f r).id ≡ r.id)
    × (st'.outbox ≡ map (changed c.id f) st.outbox)
    × (st'.now ≡ st.now)
    × (st'.settings ≡ st.settings)
    × (IsServed env c st.settings → Rests env st.now c (f c))

bury-Touches :
    (env : DispatcherConfig) (c : Row) (error : ℕ) (st : Dispatch)
    → Touches env c st (bury c error st).1
unfolding bury update_row dead_row is_due_state
bury-Touches env c error st = (dead_row error, (λ r. refl), refl, refl, refl, λ h. inl refl)

finish-Touches :
    (env : DispatcherConfig) (c : Row) (o : Outcome) (st : Dispatch)
    → Touches env c st (finish env c o st).1
unfolding finish update_row bury is_due_state sent_row failed_row dead_row
finish-Touches env c (delivered message) st =
    (sent_row st.now message, (λ r. refl), refl, refl, refl, λ h. inl refl)
finish-Touches env c (permanent error) st = bury-Touches env c error st
finish-Touches env c (temporary error) st = elim (Bool-cases (leb env.max_attempts c.attempts)) [
  | inl e ↦
      let same : (finish env c (temporary error) st).1 ≡ (bury c error st).1 = ground (arith, e) in
      subst (Touches env c st) (sym same) (bury-Touches env c error st)
  | inr e ↦ (
    failed_row st.now c.attempts error,
    (λ r. refl),
    ground (arith, e),
    ground (arith, e),
    ground (arith, e),
    λ h. inr (
      refl,
      refl,
      ground (arith, e),
      ground (arith, backoff-le c.attempts),
      refl,
      refl,
      refl,
      refl,
      refl,
    ),
  )
]

let_through-keeps :
    (env : DispatcherConfig) (r : Row) (c : Channel) (st : Dispatch)
    → (b : Bool) × (s : Dispatch) × (let_through env r c st ≡ (ok b, s))
      × (s.outbox ≡ st.outbox)
      × (s.now ≡ st.now)
      × (s.settings ≡ st.settings)
unfolding let_through try_consume
let_through-keeps env r c st = elim (Bool-cases (r.channel == sms && c.configured)) [
  | inl e ↦ elim (Bool-cases (env.sms_cap == 0)) [
    | inl f ↦ (true, st, ground (arith, e, f), refl, refl, refl)
    | inr f ↦
        let (b, s) = try_consume env.sms_cap r.tenant_id st in
        (b, s, ground (arith, e, f), ground (arith, f), ground (arith, f), ground (arith, f))
  ]
  | inr e ↦ (true, st, ground (arith, e), refl, refl, refl)
]

-- What was done after the cap's counter moved.
Touches-from :
    (env : DispatcherConfig) (c : Row) (st s st' : Dispatch)
    → s.outbox ≡ st.outbox
    → s.now ≡ st.now
    → s.settings ≡ st.settings
    → Touches env c s st'
    → Touches env c st st'
Touches-from env c st s st' o n g (f, k, rows, now, settings, rests) = (
  f,
  k,
  rows ∙ (λ i. map (changed c.id f) (o i)),
  now ∙ n,
  settings ∙ g,
  λ h. subst (λ t. Rests env t c (f c)) n (rests (subst (IsServed env c) (sym g) h)),
)

deliver_message-Touches :
    (env : DispatcherConfig) (c : Row) (m : Option ℕ × ℕ) (channel : Channel) (st : Dispatch)
    → Touches env c st (deliver_message env c m channel st).1
unfolding deliver_message
deliver_message-Touches env c m channel st =
    let (b, s, e, o, n, g) = let_through-keeps env c channel st in
    let message : Message = record {
      notification_id = c.notification_id;
      address = c.recipient;
      subject = m.0;
      body = m.1;
      locale = c.locale;
    } in
    elim (Bool-cases b) [
      | inr f ↦
          let same : (deliver_message env c m channel st).1 ≡ (bury c env.cap_exceeded s).1 =
            ground (arith, e, f) in
          Touches-from env c st s (deliver_message env c m channel st).1 o n g
            (subst (Touches env c s) (sym same) (bury-Touches env c env.cap_exceeded s))
      | inl f ↦
          let same : (deliver_message env c m channel st).1
              ≡ (finish env c (channel.send s.now message) s).1 =
            ground (arith, e, f) in
          Touches-from env c st s (deliver_message env c m channel st).1 o n g (
            subst (Touches env c s) (sym same)
              (finish-Touches env c (channel.send s.now message) s))
    ]

map-changed_same : (j : ℕ) (rows : List Row) → map (changed j (λ r. r)) rows ≡ rows
map-changed_same j [] = refl
map-changed_same j (x ∷ rows) = ground (arith, map-changed_same j rows)

-- What leaves the tables as they are, for a row that is not served.
untouched :
    (env : DispatcherConfig) (c : Row) (st : Dispatch)
    → (IsServed env c st.settings → ⊥)
    → Touches env c st st
untouched env c st n =
    ((λ r. r), (λ r. refl), sym (map-changed_same c.id st.outbox), refl, refl, λ h. absurd (n h))

render-cases :
    (env : DispatcherConfig) (c : Row) (e : Error) (st : Dispatch)
    → env.render c.template_key c.locale c.params ≡ err e
    → (e ≡ Error.not_found) ⊎ ((process_row env c st ≡ (err e, st)) × (e ≢ Error.not_found))
unfolding process_row
render-cases env c e st h = ground (arith, h)

pub process_row-Touches :
    (env : DispatcherConfig) (c : Row) (st : Dispatch) → Touches env c st (process_row env c st).1
unfolding process_row
process_row-Touches env c st = elim (Result-cases (env.render c.template_key c.locale c.params)) [
  | inr (e, h) ↦ elim (render-cases env c e st h) [
    | inl same ↦
        let unknown : env.render c.template_key c.locale c.params ≡ err Error.not_found =
          h ∙ (λ i. err (same i)) in
        let is : (process_row env c st).1 ≡ (bury c env.unknown_template st).1 =
          ground (arith, unknown) in
        subst (Touches env c st) (sym is) (bury-Touches env c env.unknown_template st)
    | inr (raised, other) ↦
        subst (λ w. Touches env c st w.1) (sym raised)
          (untouched env c st (λ served. elim served.0 [
            | inl u ↦ ground (arith, u, h, other)
            | inr (m, r) ↦ ground (arith, r, h)
          ]))
  ]
  | inl (m, h) ↦ elim (Result-cases (channel_of env c.channel c.tenant_id st.settings)) [
    | inl (channel, k) ↦
        let is : (process_row env c st).1 ≡ (deliver_message env c m channel st).1 =
          ground (arith, h, k) in
        subst (Touches env c st) (sym is) (deliver_message-Touches env c m channel st)
    | inr (e, k) ↦
        let is : (process_row env c st).1 ≡ st = ground (arith, h, k) in
        subst (Touches env c st) (sym is)
          (untouched env c st (λ served. ground (arith, served.1.1, k)))
  ]
]
