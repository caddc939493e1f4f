-- ===== src/Syncing/Notices.antt =====
-- Whom syncing.js of src/console/jsre/deps/web3.js tells about synchronisation.
use ultron.Prelude.{
  ℕ, ◌≡◌, refl, ap, true, false, Option, none, some, List, [], ◌∷◌, ◌++◌, Bool-cases, inl, inr,
}
use ultron.Json.{Json}
use ultron.Manager.{done}
use ultron.Value.{Value}
use ultron.Messages.{Runtime}
use ultron.Syncing.{Syncing, each_callback, same, notify, notice, on_message}

module _ {Big : Type 0} where
  silent : (cs : List ℕ) (last sync : Value Big) → each_callback cs true last sync ≡ []
  unfolding each_callback
  silent [] last sync = refl
  silent (c ∷ cs) last sync = silent cs last sync

  repeated :
      (cs : List ℕ) (last sync : Value Big)
      → same last sync ≡ true
      → each_callback cs false last sync ≡ []
  unfolding each_callback
  repeated [] last sync h = refl
  repeated (c ∷ cs) last sync h = rw h (repeated cs last sync h)

  first_only :
      (c : ℕ) (cs : List ℕ) (last sync : Value Big)
      → each_callback (c ∷ cs) false last sync ≡ each_callback (c ∷ []) false last sync
  unfolding each_callback
  first_only c cs last sync = elim (Bool-cases (same last sync)) [
    | inl h ↦ rw h (repeated cs last sync h)
    | inr h ↦ rw h (ap (λ t. notify c last sync ++ t) (silent cs sync sync))
  ]

  notice-first :
      (s : Syncing Big) (c : ℕ) (cs : List ℕ) (o : Option (Value Big))
      → (notice (record s { callbacks = c ∷ cs }) o).calls
        ≡ (notice (record s { callbacks = c ∷ [] }) o).calls
  notice-first s c cs none = refl
  notice-first s c cs (some sync) = first_only c cs s.last_sync_state sync

module _ (rt : Runtime) where
  open rt.big_number use {Big}

  -- Of several callbacks only the first is told about an answer of the node.
  pub on_message-first :
      (s : Syncing Big) (c : ℕ) (cs : List ℕ) (result : Option Json)
      → (on_message rt (record s { callbacks = c ∷ cs }) (done result)).calls
        ≡ (on_message rt (record s { callbacks = c ∷ [] }) (done result)).calls
  unfolding on_message
  on_message-first s c cs result = notice-first s c cs _
