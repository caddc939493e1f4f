-- ===== src/Ipc/Pending.antt =====
-- How many callbacks of src/console/jsre/deps/web3.js an IPC provider calls, and how many wait.
use ultron.Prelude.{
  ℕ, Bool, if◌then◌else◌, suc, ◌+◌, ◌≤◌, ◌≡◌, refl, ap, ◌∙◌, Option, none, some, List, [], ◌∷◌,
  ◌++◌, arith, length,
}
use ultron.Text.{Text}
use ultron.Json.{Json, str}
use ultron.Dictionary.{lookup, insert, erase}
use ultron.Rpc.{invalid_response}
use ultron.Manager.{Arrival}
use ultron.Ipc.{
  IpcProvider, Waiting, Message, single, batch, Effect, connected, written, called, thrown,
  keep_chunk, drop_chunk, parsed_chunk, prepend, parse_chunk, parse_chunks, parse_response, on_data,
  deliver, deliver_to, deliver_all, id_of, timeout, fire, break_off, stop_timer,
  add_response_callback,
}
use ultron.Ipc.Chunks.{dechunk}

length-erase_le :
    (key : Text) (table : List (Text × Waiting)) → length (erase key table) ≤ length table
unfolding erase
length-erase_le key [] = omega arith
length-erase_le key ((k, w) ∷ rest) = ground (arith, length-erase_le key rest)

length-erase :
    (key : Text) (w : Waiting) (table : List (Text × Waiting))
    → lookup key table ≡ some w
    → suc (length (erase key table)) ≤ length table
unfolding lookup erase
length-erase key w [] h = cc
length-erase key w ((k, v) ∷ rest) h =
    ground (arith, length-erase_le key rest, length-erase key w rest)

length-insert :
    (key : Text) (w : Waiting) (table : List (Text × Waiting))
    → length (insert key w table) ≤ suc (length table)
unfolding insert
length-insert key w [] = omega arith
length-insert key w ((k, v) ∷ rest) = ground (arith, length-insert key w rest)

some-inj {ℓ} : {A : Type ℓ} {x y : A} → some x ≡ some y → x ≡ y
some-inj e = cc

abbrev pub pending : IpcProvider → ℕ
pending p = length p.response_callbacks

pub add-pending :
    (p q : IpcProvider) (m : Message) (callback : ℕ)
    → add_response_callback p m callback ≡ some q
    → pending q ≤ suc (pending p)
unfolding add_response_callback
add-pending p q (single r) callback h = rw (← some-inj h) (length-insert _ _ p.response_callbacks)
add-pending p q (batch []) callback h = cc
add-pending p q (batch (r ∷ rs)) callback h =
    rw (← some-inj h) (length-insert _ _ p.response_callbacks)

parsed_chunk-keeps :
    (p : IpcProvider) (text : Text) (o : Option Json)
    → (parsed_chunk p text o).0.response_callbacks ≡ p.response_callbacks
unfolding parsed_chunk keep_chunk drop_chunk
parsed_chunk-keeps p text none = refl
parsed_chunk-keeps p text (some v) = refl

module _ (parse : Text → Option Json) where
  parse_chunk-keeps :
      (p : IpcProvider) (c : Text)
      → (parse_chunk parse p c).0.response_callbacks ≡ p.response_callbacks
  unfolding parse_chunk
  parse_chunk-keeps p c =
      let text = prepend p.last_chunk c in parsed_chunk-keeps p text (parse text)

  parse_chunks-keeps :
      (p : IpcProvider) (cs : List Text)
      → (parse_chunks parse p cs).0.response_callbacks ≡ p.response_callbacks
  unfolding parse_chunks
  parse_chunks-keeps p [] = refl
  parse_chunks-keeps p (c ∷ cs) =
      parse_chunks-keeps (parse_chunk parse p c).0 cs ∙ parse_chunk-keeps p c

module _ (throws : ℕ → Arrival → Bool) where
  -- The calls of callbacks among some effects that return.
  unfoldable pub calls : List Effect → ℕ
  calls [] = 0
  calls (called c a ∷ es) = let rest = calls es in if throws c a then rest else suc rest
  calls (connected path ∷ es) = calls es
  calls (written text ∷ es) = calls es
  calls (thrown e ∷ es) = calls es

  pub calls-append : (es fs : List Effect) → calls (es ++ fs) ≡ calls es + calls fs
  unfolding calls
  calls-append [] fs = omega arith
  calls-append (called c a ∷ es) fs = ground (arith, calls-append es fs)
  calls-append (connected path ∷ es) fs = calls-append es fs
  calls-append (written text ∷ es) fs = calls-append es fs
  calls-append (thrown e ∷ es) fs = calls-append es fs

  deliver_to-pending :
      (p : IpcProvider) (v : Json) (key : Text) (o : Option Waiting)
      → lookup key p.response_callbacks ≡ o
      → calls (deliver_to throws p v key o).1 + pending (deliver_to throws p v key o).0 ≤ pending p
  unfolding deliver_to calls
  deliver_to-pending p v key none h = omega arith
  deliver_to-pending p v key (some w) h = ground (arith, length-erase key w p.response_callbacks h)

  deliver-pending :
      (p : IpcProvider) (v : Json)
      → calls (deliver throws p v).1 + pending (deliver throws p v).0 ≤ pending p
  unfolding deliver
  deliver-pending p v =
      let key = id_of p.response_callbacks v in
      deliver_to-pending p v key (lookup key p.response_callbacks) refl

  deliver_all-pending :
      (p : IpcProvider) (vs : List Json)
      → calls (deliver_all throws p vs).1 + pending (deliver_all throws p vs).0 ≤ pending p
  unfolding deliver_all calls
  deliver_all-pending p [] = omega arith
  deliver_all-pending p (v ∷ vs) = ground (
    arith,
    deliver-pending p v,
    deliver_all-pending (deliver throws p v).0 vs,
    calls-append (deliver throws p v).1 (deliver_all throws (deliver throws p v).0 vs).1,
  )

  break_off-length :
      (table : List (Text × Waiting))
      → calls (break_off throws table).1 + length (break_off throws table).0 ≤ length table
  unfolding break_off calls
  break_off-length [] = omega arith
  break_off-length ((key, w) ∷ rest) = ground (arith, break_off-length rest)

  pub timeout-pending :
      (p : IpcProvider) → calls (timeout throws p).1 + pending (timeout throws p).0 ≤ pending p
  unfolding timeout
  timeout-pending p = break_off-length p.response_callbacks

  pub fire-pending :
      (p : IpcProvider) (t : ℕ) (text : Text)
      → calls (fire throws p t text).1 + pending (fire throws p t text).0 ≤ pending p
  unfolding fire calls
  fire-pending p t text =
      let q = record p { running = stop_timer (some t) p.running } in
      let last =
        if (timeout throws q).2 then [] else thrown (invalid_response (some (str text))) ∷ [] in
      ground (arith, timeout-pending q, calls-append (timeout throws q).1 last)

  pub on_data-pending :
      (parse : Text → Option Json) (p : IpcProvider) (text : Text)
      → calls (on_data throws parse p text).1 + pending (on_data throws parse p text).0 ≤ pending p
  unfolding on_data parse_response
  on_data-pending parse p text =
      let (q, vs) = parse_chunks parse p (dechunk text) in
      omega (arith, deliver_all-pending q vs, ap length (parse_chunks-keeps parse p (dechunk text)))
