-- ===== src/Ipc/Runs.antt =====
-- What can happen to an IPC provider of src/console/jsre/deps/web3.js, in any order, and how often
-- callbacks are called.
use ultron.Prelude.{ℕ, Bool, suc, ◌+◌, ◌≤◌, ◌≡◌, ap, Option, none, some, List, [], ◌∷◌, ◌++◌, arith}
use mathlib.Core.Option
use ultron.Text.{Text}
use ultron.Json.{Json}
use ultron.Manager.{Arrival}
use ultron.Ipc.{
  IpcProvider, Connection, Message, Effect, written, create, on_data, timeout, fire, ensure,
  send_async, is_connected, add_response_callback,
}
use ultron.Ipc.Pending.{
  calls, calls-append, pending, timeout-pending, fire-pending, add-pending, on_data-pending,
}

module _ (throws : ℕ → Arrival → Bool) (parse : Text → Option Json) (stringify : Message → Text)
    (reconnect : Connection → Connection) where
  -- A provider after some requests, the first number, and some calls of callbacks that returned,
  -- the second.
  pub data Reach : IpcProvider → ℕ → ℕ → Type 0 where
    made : (path : Text) (c : Connection) → Reach (create path c) 0 0
    sent :
        (p q : IpcProvider) (es : List Effect) (m : Message) (callback n k : ℕ)
        → Reach p n k
        → send_async parse stringify reconnect p m callback ≡ some (q, es)
        → Reach q (suc n) (k + calls throws es)
    got :
        (p : IpcProvider) (text : Text) (n k : ℕ)
        → Reach p n k
        → Reach (on_data throws parse p text).0 n (k + calls throws (on_data throws parse p text).1)
    ended :
        (p : IpcProvider) (n k : ℕ)
        → Reach p n k
        → Reach (timeout throws p).0 n (k + calls throws (timeout throws p).1)
    fired :
        (p : IpcProvider) (t : ℕ) (text : Text) (n k : ℕ)
        → Reach p n k
        → Reach (fire throws p t text).0 n (k + calls throws (fire throws p t text).1)
    asked :
        (p : IpcProvider) (n k : ℕ)
        → Reach p n k
        → Reach (is_connected parse stringify reconnect p).0 n k

  ensure-pending :
      (p : IpcProvider)
      → (pending (ensure parse stringify reconnect p).0 ≡ pending p)
        × (calls throws (ensure parse stringify reconnect p).1 ≡ 0)
  unfolding ensure calls
  ensure-pending p = (ground arith, ground arith)

  sent-from :
      (p q : IpcProvider) (m : Message) (es fs : List Effect) (o : Option IpcProvider)
      → Option.map {B = IpcProvider × List Effect} (λ r. (r, fs ++ written (stringify m) ∷ [])) o
        ≡ some (q, es)
      → (o ≡ some q) × (fs ++ written (stringify m) ∷ [] ≡ es)
  sent-from p q m es fs none h = cc
  sent-from p q m es fs (some r) h = (cc, cc)

  send_async-pending :
      (p q : IpcProvider) (es : List Effect) (m : Message) (callback : ℕ)
      → send_async parse stringify reconnect p m callback ≡ some (q, es)
      → calls throws es + pending q ≤ suc (pending p)
  unfolding send_async calls
  send_async-pending p q es m callback h =
      let (r, fs) = ensure parse stringify reconnect p in
      let (same, calls_none) = ensure-pending p in
      let (added, effects) = sent-from p q m es fs (add_response_callback r m callback) h in
      omega (
        arith,
        same,
        calls_none,
        add-pending r q m callback added,
        ap (calls throws) effects,
        calls-append throws fs (written (stringify m) ∷ []),
      )

  -- Whatever arrives and whichever callbacks throw, the calls that returned and the callbacks that
  -- wait are no more than the requests that were sent. A callback that throws waits on.
  pub Reach-calls_le : (p : IpcProvider) (n k : ℕ) → Reach p n k → k + pending p ≤ n
  unfolding create is_connected
  Reach-calls_le p n k (made path c) = omega arith
  Reach-calls_le p n k (sent p' q es m callback n' k' r h) =
      omega (arith, Reach-calls_le p' n' k' r, send_async-pending p' q es m callback h)
  Reach-calls_le p n k (got p' text n' k' r) =
      omega (arith, Reach-calls_le p' n' k' r, on_data-pending throws parse p' text)
  Reach-calls_le p n k (ended p' n' k' r) =
      omega (arith, Reach-calls_le p' n' k' r, timeout-pending throws p')
  Reach-calls_le p n k (fired p' t text n' k' r) =
      omega (arith, Reach-calls_le p' n' k' r, fire-pending throws p' t text)
  Reach-calls_le p n k (asked p' n' k' r) =
      omega (arith, Reach-calls_le p' n' k' r, (ensure-pending p').0)
