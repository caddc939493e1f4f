-- ===== src/Manager/Invariant.antt =====
-- The timer of the request manager: one runs exactly when the manager holds it, and while there is
-- a poll.
use ultron.Prelude.{
  ℕ, ◌+◌, Bool-cases, ◌≡◌, ◌≢◌, refl, sym, ap, ◌∙◌, inl, inr, Option-cases, Bool, true, false,
  Option, none, some, List, [], ◌∷◌, arith, ◌==◌, ◌||◌,
}
use ultron.Text.{Text}
use ultron.Dictionary.{insert-ne_nil, erase, lookup}
use ultron.Rpc.{Request}
use ultron.Manager.{
  Manager, Provider, remove, poll, start_polling, stop_timer, stop_polling, fire, set_provider,
  send, send_async, send_batch,
}
use ultron.Manager.Reset.{stays, keys_of, reset, reset_polls, Undo, run_undo}

abbrev pub timer_list : Option ℕ → List ℕ
timer_list none = []
timer_list (some t) = t ∷ []

pub record IsScheduled (m : Manager) : Type 0 where
  -- The only timer that runs is the one that the manager holds.
  pub single : m.running ≡ timer_list m.timeout
  -- While there is a poll, a timer runs.
  pub busy : m.polls ≢ [] → m.timeout ≢ none
  -- Without one, none does.
  pub idle : m.polls ≡ [] → m.timeout ≡ none

abbrev pub has : ℕ → List ℕ → Bool
has t [] = false
has t (u ∷ us) = u == t || has t us

-- What a page, a filter, the clock or the settings can do to the manager.
pub data Step : Manager → Manager → Type 0 where
  start :
      (m : Manager) (request : Request) (poll_id : Text) (callback uninstall : ℕ)
      → Step m (start_polling m request poll_id callback uninstall).0
  stop : (m : Manager) (poll_id : Text) → Step m (stop_polling m poll_id)
  clear :
      (m : Manager) (undo : ℕ → Undo) (keep_is_syncing : Bool)
      → Step m (reset (run_undo undo) m keep_is_syncing).manager
  tick : (m : Manager) (t : ℕ) → has t m.running ≡ true → Step m (fire m t).0
  connect : (m : Manager) (p : Option Provider) → Step m (set_provider m p)
  request : (m : Manager) (r : Request) → Step m (send m r).0
  request_async : (m : Manager) (r : Request) (callback : ℕ) → Step m (send_async m r callback).0
  request_batch :
      (m : Manager) (rs : List Request) (callback : ℕ) → Step m (send_batch m rs callback).0

pub data Reach (m : Manager) : Manager → Type 0 where
  here : Reach m m
  next : {n k : Manager} → Reach m n → Step n k → Reach m k

pub poll_fields :
    (m : Manager)
    → ((poll m).0.polls ≡ m.polls)
      × ((poll m).0.timeout ≡ some (m.timers + 1))
      × ((poll m).0.running ≡ (m.timers + 1) ∷ m.running)
unfolding poll
poll_fields m = ground arith

-- Stopping the timer where no poll is left makes the last law hold again.
stop_timer-IsScheduled :
    (m : Manager)
    → m.running ≡ timer_list m.timeout
    → (m.polls ≢ [] → m.timeout ≢ none)
    → IsScheduled (stop_timer m)
unfolding stop_timer
stop_timer-IsScheduled m s b = ground arith

poll-IsScheduled : (m : Manager) → m.running ≡ [] → m.polls ≢ [] → IsScheduled (poll m).0
poll-IsScheduled m r n =
    let (polls, timeout, running) = poll_fields m in
    record { single = ground arith; busy = ground arith; idle = λ e. absurd (n (sym polls ∙ e)) }

start-IsScheduled :
    (m : Manager) (r : Request) (key : Text) (callback uninstall : ℕ)
    → IsScheduled m
    → IsScheduled (start_polling m r key callback uninstall).0
unfolding start_polling
start-IsScheduled m r key callback uninstall v = elim (Option-cases m.timeout) [
  | inl off ↦ rw off (poll-IsScheduled _ (v.single ∙ rw off) (insert-ne_nil key _ m.polls))
  | inr (t, on) ↦ rw on record {
    single = v.single ∙ ap timer_list on;
    busy = λ n e. cc;
    idle = λ e. absurd (insert-ne_nil key _ m.polls e);
  }
]

erase-ne_nil {ℓ} :
    {V : Type ℓ} (key : Text) (table : List (Text × V)) → erase key table ≢ [] → table ≢ []
unfolding erase
erase-ne_nil key [] h = h
erase-ne_nil key ((k, v) ∷ rest) h = cc

remove_single : (t u : ℕ) → has t (u ∷ []) ≡ true → remove t (u ∷ []) ≡ []
remove_single t u h = ground arith

fire-IsScheduled :
    (m : Manager) (t : ℕ) → IsScheduled m → has t m.running ≡ true → IsScheduled (fire m t).0
unfolding fire
fire-IsScheduled m t v h = elim (Option-cases m.timeout) [
  | inl off ↦ let nothing : false ≡ true = rw (v.single ∙ ap timer_list off) at h in cc
  | inr (u, on) ↦
      let one : m.running ≡ u ∷ [] = v.single ∙ ap timer_list on in
      poll-IsScheduled (record m { running = remove t m.running })
        (ap (remove t) one ∙ remove_single t u (rw one at h)) (λ e. absurd (cc (v.idle e)))
]

stop-IsScheduled : (m : Manager) (key : Text) → IsScheduled m → IsScheduled (stop_polling m key)
unfolding stop_polling
stop-IsScheduled m key v =
    stop_timer-IsScheduled (record m { polls = erase key m.polls }) v.single
      (λ n. v.busy (erase-ne_nil key m.polls n))

send-IsScheduled : (m : Manager) (r : Request) → IsScheduled m → IsScheduled (send m r).0
unfolding send
send-IsScheduled m r v = ground arith

-- The first two laws: the last one fails between the steps of a reset.
record IsHeld (m : Manager) : Type 0 where
  single : m.running ≡ timer_list m.timeout
  busy : m.polls ≢ [] → m.timeout ≢ none

erase-IsHeld :
    (m : Manager) (key : Text) → IsHeld m → IsHeld (record m { polls = erase key m.polls })
erase-IsHeld m key v = record { single = v.single; busy = λ n. v.busy (erase-ne_nil key m.polls n) }

run_undo-IsScheduled :
    (undo : ℕ → Undo) (u : ℕ) (m : Manager) → IsHeld m → IsScheduled (run_undo undo u m).0
unfolding run_undo stop_polling
run_undo-IsScheduled undo u m v =
    let stopped : IsScheduled (stop_polling m (undo u).key) =
      stop_timer-IsScheduled (record m { polls = erase (undo u).key m.polls }) v.single
        (λ n. v.busy (erase-ne_nil (undo u).key m.polls n)) in
    elim (Option-cases (undo u).request) [
      | inl none_sent ↦ rw (none_sent, run_undo) stopped
      | inr (r, e) ↦ rw (e, run_undo) (send-IsScheduled (stop_polling m (undo u).key) r stopped)
    ]

reset_polls-IsScheduled :
    (undo : ℕ → Undo) (k : Bool) (keys : List Text) (m : Manager)
    → IsHeld m
    → IsScheduled (reset_polls (run_undo undo) k keys m).manager
unfolding reset_polls
reset_polls-IsScheduled undo k [] m v = stop_timer-IsScheduled m v.single v.busy
reset_polls-IsScheduled undo k (key ∷ keys) m v = elim (Bool-cases (stays k key)) [
  | inl kept ↦ rw (kept, reset_polls) (reset_polls-IsScheduled undo k keys m v)
  | inr cleared ↦ elim (Option-cases (lookup key m.polls)) [
    | inl gone ↦ rw (cleared, gone, reset_polls) (reset_polls-IsScheduled undo k keys m v)
    | inr (p, there) ↦
        let undone = run_undo-IsScheduled undo p.uninstall m v in
        elim (Bool-cases (run_undo undo p.uninstall m).1) [
          | inl throws ↦ rw (cleared, there, throws, reset_polls) undone
          | inr returns ↦
              rw (cleared, there, returns, reset_polls)
                (reset_polls-IsScheduled undo k keys _ (
                  erase-IsHeld (run_undo undo p.uninstall m).0 key
                    (record { single = undone.single; busy = undone.busy })))
        ]
  ]
]

clear-IsScheduled :
    (m : Manager) (undo : ℕ → Undo) (k : Bool)
    → IsScheduled m
    → IsScheduled (reset (run_undo undo) m k).manager
unfolding reset
clear-IsScheduled m undo k v =
    reset_polls-IsScheduled undo k (keys_of m.polls) m (record { single = v.single; busy = v.busy })

send_async-IsScheduled :
    (m : Manager) (r : Request) (callback : ℕ)
    → IsScheduled m
    → IsScheduled (send_async m r callback).0
unfolding send_async
send_async-IsScheduled m r callback v = ground arith

send_batch-IsScheduled :
    (m : Manager) (rs : List Request) (callback : ℕ)
    → IsScheduled m
    → IsScheduled (send_batch m rs callback).0
unfolding send_batch
send_batch-IsScheduled m rs callback v = ground arith

-- Each step keeps the timer in order.
pub Step-IsScheduled : {m n : Manager} → Step m n → IsScheduled m → IsScheduled n
Step-IsScheduled (start m r key callback uninstall) v =
    start-IsScheduled m r key callback uninstall v
Step-IsScheduled (stop m key) v = stop-IsScheduled m key v
Step-IsScheduled (clear m undo k) v = clear-IsScheduled m undo k v
Step-IsScheduled (tick m t h) v = fire-IsScheduled m t v h
Step-IsScheduled (connect m p) v =
    unfold set_provider in record { single = v.single; busy = v.busy; idle = v.idle }
Step-IsScheduled (request m r) v = send-IsScheduled m r v
Step-IsScheduled (request_async m r callback) v = send_async-IsScheduled m r callback v
Step-IsScheduled (request_batch m rs callback) v = send_batch-IsScheduled m rs callback v

abbrev pub initial : Option Provider → Manager
initial p = record {
  provider = p;
  polls = [];
  timeout = none;
  message_id = 0;
  running = [];
  timers = 0;
}

-- Whatever happens to a new manager, at most one timer runs, it is the one that the manager holds,
-- and it runs exactly while there is a poll.
pub Reach-IsScheduled : (p : Option Provider) {m : Manager} → Reach (initial p) m → IsScheduled m
Reach-IsScheduled p here = record { single = refl; busy = λ n e. n refl; idle = λ e. refl }
Reach-IsScheduled p (next r s) = Step-IsScheduled s (Reach-IsScheduled p r)
