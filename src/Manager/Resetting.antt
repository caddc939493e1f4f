-- ===== src/Manager/Resetting.antt =====
-- What a full reset of the request manager leaves, where the polls are stopped as web3 does it.
use ultron.Prelude.{
  ℕ, ◌≡◌, refl, ap, ◌∙◌, true, false, Option, none, some, List, [], ◌∷◌, map, arith, Bool-cases,
  Option-cases, inl, inr,
}
use ultron.Text.{Text, text_eq, text_eq_refl}
use ultron.Dictionary.{lookup, erase}
use ultron.Rpc.{Request, Payload, to_payload, is_valid_response}
use ultron.Manager.{Manager, Poll, Provider, Event, uninstalled, send, stop_timer, stop_polling}
use ultron.Manager.Reset.{
  after_uninstall, Reset, keys_of, reset, reset_polls, stays, Undo, run_undo, is_thrown,
}
use ultron.Manager.Invariant.{IsScheduled, timer_list}

-- No key stands twice, as in every object.
abbrev pub IsDistinct : List (Text × Poll) → Type 0
IsDistinct [] = Unit {0}
IsDistinct ((key, p) ∷ rest) = (lookup key rest ≡ none) × IsDistinct rest

-- What uninstalls a poll stops this poll, and a request that it sends does not break.
abbrev pub AllUndone : (ℕ → Undo) → List (Text × Poll) → Type 0
AllUndone undo [] = Unit {0}
AllUndone undo ((key, p) ∷ rest) =
    ((undo p.uninstall).key ≡ key) × ((undo p.uninstall).breaks ≡ false) × AllUndone undo rest

-- The provider answers every request, if there is one.
abbrev pub IsAnswering : Option Provider → Type 0
IsAnswering none = Unit {0}
IsAnswering (some p) = (q : Payload) → is_valid_response (p.send q) ≡ true

erase-absent :
    (key : Text) (table : List (Text × Poll)) → lookup key table ≡ none → erase key table ≡ table
unfolding lookup erase
erase-absent key [] h = refl
erase-absent key ((k, p) ∷ rest) h = elim (Bool-cases (text_eq k key)) [
  | inl e ↦ absurd (ground arith)
  | inr n ↦
      let deeper : lookup key rest ≡ none = ground arith in
      rw (n, erase-absent key rest deeper) refl
]

erase-first :
    (key : Text) (p : Poll) (rest : List (Text × Poll))
    → lookup key rest ≡ none
    → erase key ((key, p) ∷ rest) ≡ rest
unfolding erase
erase-first key p rest h = rw (text_eq_refl key) (erase-absent key rest h)

lookup-first :
    (key : Text) (p : Poll) (rest : List (Text × Poll)) → lookup key ((key, p) ∷ rest) ≡ some p
unfolding lookup
lookup-first key p rest = rw (text_eq_refl key) refl

-- Two managers that differ in the counter at most, with the polls, and a timer in order.
record IsLeft (o : Option Provider) (table : List (Text × Poll)) (m : Manager) : Type 0 where
  provider : m.provider ≡ o
  polls : m.polls ≡ table
  single : m.running ≡ timer_list m.timeout

stop_timer-IsLeft :
    (o : Option Provider) (polls : List (Text × Poll)) (m : Manager)
    → IsLeft o polls m
    → IsLeft o polls (stop_timer m)
unfolding stop_timer
stop_timer-IsLeft o polls m v = record {
  provider = ground (arith, v.provider);
  polls = ground (arith, v.polls);
  single = ground (arith, v.single);
}

send-IsLeft :
    (o : Option Provider) (polls : List (Text × Poll)) (m : Manager) (r : Request)
    → IsLeft o polls m
    → IsLeft o polls (send m r).0
unfolding send
send-IsLeft o polls m r v = record {
  provider = ground (arith, v.provider);
  polls = ground (arith, v.polls);
  single = ground (arith, v.single);
}

send-returns :
    (o : Option Provider) (m : Manager) (r : Request)
    → IsAnswering o
    → m.provider ≡ o
    → is_thrown (send m r).1 ≡ false
unfolding send
send-returns none m r a e = rw (e, send) refl
send-returns (some p) m r a e = rw (e, send, a (to_payload m.message_id r).0) refl

stop_first :
    (o : Option Provider) (key : Text) (p : Poll) (rest : List (Text × Poll)) (m : Manager)
    → IsLeft o ((key, p) ∷ rest) m
    → lookup key rest ≡ none
    → IsLeft o rest (stop_polling m key)
unfolding stop_polling
stop_first o key p rest m v new =
    stop_timer-IsLeft o rest (record m { polls = erase key m.polls })
      (record {
        provider = v.provider;
        polls = ap (erase key) v.polls ∙ erase-first key p rest new;
        single = v.single;
      })

undo_first :
    (undo : ℕ → Undo) (o : Option Provider) (u : ℕ) (key : Text) (p : Poll)
    (rest : List (Text × Poll)) (m : Manager)
    → IsAnswering o
    → IsLeft o ((key, p) ∷ rest) m
    → lookup key rest ≡ none
    → (undo u).key ≡ key
    → (undo u).breaks ≡ false
    → IsLeft o rest (run_undo undo u m).0 × ((run_undo undo u m).1 ≡ false)
unfolding run_undo
undo_first undo o u key p rest m a v new same calm =
    let stopped : IsLeft o rest (stop_polling m (undo u).key) =
      rw same (stop_first o key p rest m v new) in
    elim (Option-cases (undo u).request) [
      | inl e ↦ rw (e, run_undo) (stopped, refl)
      | inr (r, e) ↦
          rw (e, run_undo)
            (
              send-IsLeft o rest (stop_polling m (undo u).key) r stopped,
              rw (calm, send-returns o (stop_polling m (undo u).key) r a stopped.provider) refl,
            )
    ]

abbrev gone : List (Text × Poll) → List Event
gone = map (λ (_, p). uninstalled p.uninstall)

record IsCleared (table : List (Text × Poll)) (r : Reset) : Type 0 where
  polls : r.manager.polls ≡ []
  timeout : r.manager.timeout ≡ none
  running : r.manager.running ≡ []
  events : r.events ≡ gone table
  finished : r.broken_off ≡ false

reset_polls-undone :
    (undo : ℕ → Undo) (key : Text) (keys : List Text) (p : Poll) (m : Manager)
    → lookup key m.polls ≡ some p
    → (run_undo undo p.uninstall m).1 ≡ false
    → reset_polls (run_undo undo) false (key ∷ keys) m
      ≡ after_uninstall p.uninstall (
          reset_polls (run_undo undo) false keys (record ((run_undo undo p.uninstall m).0) {
            polls = erase key (run_undo undo p.uninstall m).0.polls;
          }))
unfolding reset_polls stays
reset_polls-undone undo key keys p m there returns = rw (there, returns, reset_polls) refl

reset_polls-IsCleared :
    (undo : ℕ → Undo) (o : Option Provider) (table : List (Text × Poll)) (m : Manager)
    → IsAnswering o
    → IsLeft o table m
    → IsDistinct table
    → AllUndone undo table
    → IsCleared table (reset_polls (run_undo undo) false (keys_of table) m)
reset_polls-IsCleared undo o [] m a v d u =
    unfold reset_polls stop_timer in
    record {
      polls = ground (arith, v.polls, v.single);
      timeout = ground (arith, v.polls, v.single);
      running = ground (arith, v.polls, v.single);
      events = refl;
      finished = refl;
    }
reset_polls-IsCleared undo o ((key, p) ∷ rest) m a v d u =
    let there = ap (lookup key) v.polls ∙ lookup-first key p rest in
    let (left, returns) = undo_first undo o p.uninstall key p rest m a v d.0 u.0 u.1 in
    let m' = (run_undo undo p.uninstall m).0 in
    let r =
      reset_polls-IsCleared undo o rest (record m' { polls = erase key m'.polls }) a
        (record {
          provider = left.provider;
          polls = ap (erase key) left.polls ∙ erase-absent key rest d.0;
          single = left.single;
        })
        d.1 u.2 in
    rw (reset_polls-undone undo key (keys_of rest) p m there returns) record {
      polls = r.polls;
      timeout = r.timeout;
      running = r.running;
      events = ap (λ es. uninstalled p.uninstall ∷ es) r.events;
      finished = r.finished;
    }

-- A full reset of a manager whose timer is in order, and in which no key stands twice, uninstalls
-- every poll, in order, and leaves no poll and no timer. That is if what uninstalls a poll stops
-- this poll and its request does not break, and the provider answers every request or there is
-- none; otherwise an exception can break the reset off.
pub reset-all :
    (undo : ℕ → Undo) (m : Manager)
    → IsScheduled m
    → IsDistinct m.polls
    → AllUndone undo m.polls
    → IsAnswering m.provider
    → ((reset (run_undo undo) m false).manager.polls ≡ [])
      × ((reset (run_undo undo) m false).manager.timeout ≡ none)
      × ((reset (run_undo undo) m false).manager.running ≡ [])
      × ((reset (run_undo undo) m false).events ≡ map (λ (_, p). uninstalled p.uninstall) m.polls)
      × ((reset (run_undo undo) m false).broken_off ≡ false)
unfolding reset
reset-all undo m v d u a =
    let r =
      reset_polls-IsCleared undo m.provider m.polls m a
        (record { provider = refl; polls = refl; single = v.single }) d u in
    (r.polls, r.timeout, r.running, r.events, r.finished)
