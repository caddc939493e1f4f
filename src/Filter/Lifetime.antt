-- ===== src/Filter/Lifetime.antt =====
-- When a filter of filter.js in src/console/jsre/deps/web3.js is polled: from the moment that it
-- is watched and the node has given its id, until the page stops watching.
use ultron.Prelude.{
  ℕ, append-nil, subst, ◌&&◌, ◌||◌, ◌≡◌, refl, sym, ap, ◌∙◌, Bool, true, false, Option, none, some,
  List, [], ◌∷◌, ◌++◌, arith, if◌then◌else◌, Bool-cases, inl, inr,
}
use ultron.Text.{Text, text_eq, text_eq_refl}
use ultron.Json.{Json, truthy, property_key}
use ultron.Dictionary.{lookup, erase, lookup-erase, lookup-insert}
use ultron.Rpc.{Request}
use ultron.Manager.{Manager, Poll, stop_polling, send, send_async}
use ultron.Manager.Sending.{start_polling-polls, stop_timer-polls}
use ultron.Value.{Value}
use ultron.Method.{Method, invoke, Attempt, Prepared, ready, refused, broke, dispatch, transmit}
use ultron.Filter.{
  Filter, Step, Wanted, watch, get, created, stop_watching, poll_filter, get_logs_at_start, each,
  poll_if_watched, watch_if, is_null, is_string,
}

send-polls : (m : Manager) (r : Request) → (send m r).0.polls ≡ m.polls
unfolding send
send-polls m r = ground arith

send_async-polls : (m : Manager) (r : Request) (f : ℕ) → (send_async m r f).0.polls ≡ m.polls
unfolding send_async
send_async-polls m r f = ground arith

stop_polling-polls : (m : Manager) (key : Text) → (stop_polling m key).polls ≡ erase key m.polls
unfolding stop_polling
stop_polling-polls m key = stop_timer-polls _

-- The key of a filter and the poll that stands under it.
unfoldable pub key : {Big : Type 0} → Filter Big → Text
unfolding property_key
key f = property_key (some f.filter_id)

unfoldable pub poll_of : {Big : Type 0} → Filter Big → Poll
poll_of f = record {
  request = record { method = f.implementation.poll; params = some (f.filter_id ∷ []) };
  callback = f.on_message;
  uninstall = f.stop;
}

-- The polls, and the key, the poll and the callbacks of the filter are as before.
record IsUntouched {Big : Type 0} (s t : Step Big) : Type 0 where
  polls : t.manager.polls ≡ s.manager.polls
  filter_id : t.filter.filter_id ≡ s.filter.filter_id
  key_text : key t.filter ≡ key s.filter
  poll : poll_of t.filter ≡ poll_of s.filter
  callbacks : t.filter.callbacks ≡ s.filter.callbacks

abbrev pub is_watched : List ℕ → Bool
is_watched [] = false
is_watched (c ∷ cs) = true

-- The callback that the constructor was given, if any.
abbrev pub listed : Option ℕ → List ℕ
listed none = []
listed (some c) = c ∷ []

module _ {Big : Type 0} (to_text : Big → Text) where
  transmit-polls :
      (rm : Manager) (m : Method Big) (p : Prepared Big) (callback : Option ℕ)
      → (transmit to_text rm m p callback).0.polls ≡ rm.polls
  unfolding transmit
  transmit-polls rm m p (some f) = send_async-polls rm _ f
  transmit-polls rm m p none = send-polls rm _

  dispatch-polls :
      (rm : Manager) (m : Method Big) (attempt : Attempt (Prepared Big))
      → (dispatch to_text rm m attempt).0.polls ≡ rm.polls
  unfolding dispatch
  dispatch-polls rm m (ready p) = transmit-polls rm m p p.callback
  dispatch-polls rm m (refused e) = refl
  dispatch-polls rm m broke = refl

  -- A request does not touch the polls.
  invoke-polls :
      (rm : Manager) (m : Method Big) (args : List (Value Big))
      → (invoke to_text rm m args).0.polls ≡ rm.polls
  unfolding invoke
  invoke-polls rm m args = dispatch-polls rm _ _

  get-IsUntouched : (s : Step Big) (wanted : Wanted) → IsUntouched s (get to_text s wanted)
  unfolding get key poll_of
  get-IsUntouched s wanted = elim (Bool-cases (is_null s.filter.filter_id)) [
    | inl e ↦
        rw e
          record { polls = refl; filter_id = refl; key_text = refl; poll = refl; callbacks = refl }
    | inr e ↦ rw e record {
      polls = invoke-polls s.manager s.filter.implementation.get_logs _;
      filter_id = refl;
      key_text = refl;
      poll = refl;
      callbacks = refl;
    }
  ]

  get_logs_at_start-IsUntouched :
      (s : Step Big) (callback : ℕ) → IsUntouched s (get_logs_at_start to_text s callback)
  unfolding get_logs_at_start key poll_of
  get_logs_at_start-IsUntouched s callback = elim (Bool-cases (is_string s.filter.options)) [
    | inl e ↦
        rw e
          record { polls = refl; filter_id = refl; key_text = refl; poll = refl; callbacks = refl }
    | inr e ↦ rw e (get-IsUntouched s _)
  ]

  trans-IsUntouched : {s t u : Step Big} → IsUntouched s t → IsUntouched t u → IsUntouched s u
  trans-IsUntouched h k = record {
    polls = k.polls ∙ h.polls;
    filter_id = k.filter_id ∙ h.filter_id;
    key_text = k.key_text ∙ h.key_text;
    poll = k.poll ∙ h.poll;
    callbacks = k.callbacks ∙ h.callbacks;
  }

  each-IsUntouched :
      {A : Type 0}
      → (f : Step Big → A → Step Big) → ((s : Step Big) (item : A) → IsUntouched s (f s item))
      → (items : List A) (s : Step Big) → IsUntouched s (each to_text f items s)
  each-IsUntouched f h [] s = record {
    polls = refl;
    filter_id = refl;
    key_text = refl;
    poll = refl;
    callbacks = refl;
  }
  each-IsUntouched f h (item ∷ items) s =
      trans-IsUntouched (h s item) (each-IsUntouched f h items _)

  -- The poll of a filter that is polled, among those of the manager.
  abbrev HasPoll : Bool → Filter Big → Manager → Manager → Type 0
  HasPoll polled f before after =
      (j : Text)
      → lookup j after.polls
        ≡ (if polled && text_eq (key f) j then some (poll_of f) else lookup j before.polls)

  poll_filter-HasPoll :
      (s : Step Big) → HasPoll true s.filter s.manager (poll_filter to_text s).manager
  unfolding poll_filter key poll_of
  poll_filter-HasPoll s j = ap (lookup j) (start_polling-polls _ _ _ _ _) ∙ lookup-insert _ j _ _

  -- Polling after requests that touch nothing.
  after-HasPoll :
      {s t : Step Big}
      → IsUntouched s t
      → HasPoll true s.filter s.manager (poll_filter to_text t).manager
  after-HasPoll {t = t} h j = poll_filter-HasPoll t j ∙ rw (h.polls, h.key_text, h.poll) refl

  -- A filter that is watched is polled under its id if it has one, and the callback is the last of
  -- its callbacks; the other polls are as before.
  pub watch_lem :
      (s : Step Big) (callback : ℕ)
      → ((watch to_text s callback).filter.callbacks ≡ s.filter.callbacks ++ callback ∷ [])
        × ((j : Text)
            → lookup j (watch to_text s callback).manager.polls ≡ (
                if truthy (some s.filter.filter_id) && text_eq (key s.filter) j
                then some (poll_of s.filter)
                else lookup j s.manager.polls))
  unfolding watch poll_filter key poll_of
  watch_lem s callback =
      let watched : Step Big = record s {
        filter = record (s.filter) { callbacks = s.filter.callbacks ++ callback ∷ [] };
      } in
      let same = get_logs_at_start-IsUntouched watched callback in
      elim (Bool-cases (truthy (some s.filter.filter_id))) [
        | inl e ↦ rw e (same.callbacks, after-HasPoll same)
        | inr e ↦ rw e (refl, λ j. refl)
      ]

  poll_if_watched-HasPoll :
      (callbacks : List ℕ) {s t : Step Big}
      → IsUntouched s t
      → HasPoll
          (is_watched callbacks)
          s.filter
          s.manager
          (poll_if_watched to_text callbacks t).manager
  poll_if_watched-HasPoll [] h j = ap (lookup j) h.polls
  poll_if_watched-HasPoll (c ∷ cs) h j = after-HasPoll h j

  poll_if_watched-filter :
      (callbacks : List ℕ) (s : Step Big) → (poll_if_watched to_text callbacks s).filter ≡ s.filter
  unfolding poll_filter
  poll_if_watched-filter [] s = refl
  poll_if_watched-filter (c ∷ cs) s = refl

  watch_if_lem :
      (callback : Option ℕ) (s : Step Big)
      → ((watch_if to_text callback s).filter.callbacks ≡ s.filter.callbacks ++ listed callback)
        × HasPoll
            (is_watched (listed callback) && truthy (some s.filter.filter_id))
            s.filter
            s.manager
            (watch_if to_text callback s).manager
  watch_if_lem none s = (sym (append-nil s.filter.callbacks), λ j. refl)
  watch_if_lem (some c) s = watch_lem s c

  -- Polling twice.
  both-HasPoll :
      (a b : Bool) (f g : Filter Big) (m n o : Manager)
      → key g ≡ key f
      → poll_of g ≡ poll_of f
      → HasPoll a f m n
      → HasPoll b g n o
      → HasPoll (a || b) f m o
  both-HasPoll false b f g m n o k p h h' j = h' j ∙ rw (k, p, h j) refl
  both-HasPoll true b f g m n o k p h h' j = h' j ∙ rw (k, p, h j) (ground arith)

  -- When the node gives the id, the filter is polled under it if it is watched by then, or if the
  -- constructor was given a callback and the id counts as true. That callback is then the last of
  -- the callbacks. The other polls are as before.
  pub created_lem :
      (s : Step Big) (id : Json) (callback : Option ℕ)
      → ((created to_text s id callback).filter.callbacks ≡ s.filter.callbacks ++ listed callback)
        × ((j : Text)
            → lookup j (created to_text s id callback).manager.polls ≡ (
                if (is_watched s.filter.callbacks
                    || (is_watched (listed callback) && truthy (some id)))
                  && text_eq (key (record (s.filter) { filter_id = id })) j
                then some (poll_of (record (s.filter) { filter_id = id }))
                else lookup j s.manager.polls))
  unfolding created key poll_of
  created_lem s id callback =
      let known : Step Big = record s { filter = record (s.filter) { filter_id = id } } in
      let asked = each to_text (get to_text) s.filter.get_logs_callbacks known in
      let asked-same =
        each-IsUntouched (get to_text) get-IsUntouched s.filter.get_logs_callbacks known in
      let cleared : Step Big = record asked {
        filter = record (asked.filter) { get_logs_callbacks = [] };
      } in
      let started = each to_text (get_logs_at_start to_text) s.filter.callbacks cleared in
      let started-same =
        each-IsUntouched (get_logs_at_start to_text) get_logs_at_start-IsUntouched
          s.filter.callbacks cleared in
      let polled = poll_if_watched to_text s.filter.callbacks started in
      let cleared-same : IsUntouched asked cleared = record {
        polls = refl;
        filter_id = refl;
        key_text = refl;
        poll = refl;
        callbacks = refl;
      } in
      let same = trans-IsUntouched asked-same (trans-IsUntouched cleared-same started-same) in
      let filter-same = poll_if_watched-filter s.filter.callbacks started in
      let (callbacks-after, polls-after) = watch_if_lem callback polled in
      let given-after =
        subst
          (λ i.
            HasPoll (is_watched (listed callback) && truthy (some i)) polled.filter polled.manager
              (watch_if to_text callback polled).manager)
          (ap (λ f. f.filter_id) filter-same ∙ same.filter_id) polls-after in
      (
        callbacks-after
            ∙ ap (λ f. f.callbacks ++ listed callback) filter-same
            ∙ ap (λ cs. cs ++ listed callback) same.callbacks,
        both-HasPoll (is_watched s.filter.callbacks) _ known.filter polled.filter s.manager
            polled.manager (watch_if to_text callback polled).manager
            (ap key filter-same ∙ same.key_text) (ap poll_of filter-same ∙ same.poll)
            (poll_if_watched-HasPoll s.filter.callbacks same) given-after,
      )

  -- A filter that is stopped has no callbacks, and nothing is polled under its key any more. The
  -- other polls are as before.
  pub stop_watching_lem :
      (s : Step Big) (callback : Option ℕ)
      → ((stop_watching to_text s callback).filter.callbacks ≡ [])
        × ((j : Text)
            → lookup j (stop_watching to_text s callback).manager.polls
              ≡ (if text_eq (key s.filter) j then none else lookup j s.manager.polls))
  unfolding stop_watching key
  stop_watching_lem s callback =
      (refl, λ j. ap (lookup j) (invoke-polls _ _ _ ∙ stop_polling-polls _ _) ∙ lookup-erase _ j _)

  -- A filter that is stopped before the node gives its id is polled all the same when the id comes,
  -- if the id counts as true and the constructor was given a callback; without one nothing more is
  -- polled.
  pub created-stop_watching :
      (s : Step Big) (id : Json) (stop_callback : Option ℕ) (c : ℕ)
      → truthy (some id) ≡ true
      → (lookup
            (key (record (s.filter) { filter_id = id }))
            (created to_text (stop_watching to_text s stop_callback) id (some c)).manager.polls
          ≡ some (poll_of (record (s.filter) { filter_id = id })))
        × ((j : Text)
            → lookup j
                (created to_text (stop_watching to_text s stop_callback) id none).manager.polls
              ≡ lookup j (stop_watching to_text s stop_callback).manager.polls)
  unfolding stop_watching poll_of key
  created-stop_watching s id stop_callback c e =
      let stopped = stop_watching to_text s stop_callback in
      (
        (created_lem stopped id (some c)).1 _ ∙ rw (e, text_eq_refl _) refl,
        (created_lem stopped id none).1,
      )
