-- ===== src/Filter/Answers.antt =====
-- What the page is told by a filter of filter.js in src/console/jsre/deps/web3.js: the messages of a
-- poll, the logs that it has asked for, and errors. An exception of the formatter breaks it off. A
-- callback returns, but may change the callbacks of the filter, as stopWatching does.
use ultron.Prelude.{
  ℕ, ◌≡◌, refl, ap, ◌∙◌, Bool, true, false, Option, none, some, List, [], ◌∷◌, ◌++◌, Option-cases,
  inl, inr, arith,
}
use ultron.Json
use ultron.Json.{Json, items}
use ultron.Manager
use ultron.Rpc.{Error}
use ultron.Value.{Value, of_list}
use ultron.Method.{Formatter, Told, told, told_error, cons_both}
use ultron.Method.Convert.{of_json}
use ultron.Filter.{Filter, Wanted, at_start, asked, callback_in}

-- What the page is told, in order, and whether an exception of the formatter broke it off.
pub record Heard (Big : Type 0) : Type 0 where
  pub called : List (ℕ × Told Big)
  pub broken_off : Bool

-- The callbacks that a filter with one has after a call of it, which stops the filter or does not.
abbrev pub left : Bool → ℕ → List ℕ
left false c = c ∷ []
left true c = []

module _ {Big : Type 0} where
  abbrev pub tell_all : List ℕ → Told Big → List (ℕ × Told Big)
  tell_all [] t = []
  tell_all (c ∷ cs) t = (c, t) ∷ tell_all cs t

  -- self.formatter ? self.formatter(message) : message
  abbrev pub format : Option (Formatter Big) → Json → Option (Value Big)
  format none message = some (of_json message)
  format (some f) message = f (of_json message)

  abbrev pub then_heard : Option (List (ℕ × Told Big)) → Heard Big → Heard Big
  then_heard none rest = record { called = []; broken_off = true }
  then_heard (some ts) rest = record { called = ts ++ rest.called; broken_off = rest.broken_off }

  abbrev pub tell_value : List ℕ → Option (Value Big) → Option (List (ℕ × Told Big))
  tell_value cs none = none
  tell_value cs (some v) = some (tell_all cs (told v))

  -- What the calls of some callbacks with a message make of the callbacks of the filter.
  abbrev pub react_all : (ℕ → Told Big → List ℕ → List ℕ) → List ℕ → Told Big → List ℕ → List ℕ
  react_all react [] t now = now
  react_all react (c ∷ cs) t now = react_all react cs t (react c t now)

  abbrev pub callbacks_after :
      (ℕ → Told Big → List ℕ → List ℕ) → List ℕ → Option (Value Big) → List ℕ
  callbacks_after react cs none = cs
  callbacks_after react cs (some v) = react_all react cs (told v) cs

  -- messages.forEach: for each message, the callbacks that the filter then has.
  unfoldable pub hear :
      (ℕ → Told Big → List ℕ → List ℕ) → Option (Formatter Big) → List ℕ → List Json → Heard Big
  unfolding of_json
  hear react formatter callbacks [] = record { called = []; broken_off = false }
  hear react formatter callbacks (message ∷ rest) =
      let formatted = format formatter message in
      then_heard (tell_value callbacks formatted)
        (hear react formatter (callbacks_after react callbacks formatted) rest)

  -- onMessage of pollFilter: an error, or the messages if they are an array.
  unfoldable pub on_message :
      (ℕ → Told Big → List ℕ → List ℕ) → Filter Big → Manager.Reply → Heard Big
  unfolding hear
  on_message react f (Manager.failed e) = record {
    called = tell_all f.callbacks (told_error e);
    broken_off = false;
  }
  on_message react f (Manager.done (some (Json.arr messages))) =
      hear react f.formatter f.callbacks (items messages)
  on_message react f (Manager.done _) = record { called = []; broken_off = false }

  -- The node has refused the filter: the callbacks are told, and then the constructor's error
  -- callback is called, which is undefined unless it was given.
  unfoldable pub creation_failed : Filter Big → Error → Option ℕ → Heard Big
  creation_failed f e none = record {
    called = tell_all f.callbacks (told_error e);
    broken_off = true;
  }
  creation_failed f e (some callback) = record {
    called = tell_all f.callbacks (told_error e) ++ (callback, told_error e) ∷ [];
    broken_off = false;
  }

  -- res.map(formatter); the first exception ends it.
  unfoldable pub format_logs : Option (Formatter Big) → List Json → Option (List (Value Big))
  unfolding of_json
  format_logs f [] = some []
  format_logs f (log ∷ rest) = cons_both (format f log) (format_logs f rest)

  abbrev pub tell_each : ℕ → List (Value Big) → List (ℕ × Told Big)
  tell_each c [] = []
  tell_each c (v ∷ vs) = (c, told v) ∷ tell_each c vs

  -- One that asked gets the array, one that starts to watch gets the messages one by one.
  abbrev pub hand_over : Wanted → List (Value Big) → List (ℕ × Told Big)
  hand_over (asked c) vs = (c, told (Value.arr (of_list vs))) ∷ []
  hand_over (at_start c) vs = tell_each c vs

  abbrev pub handed_over : Wanted → Option (List (Value Big)) → Heard Big
  handed_over wanted none = record { called = []; broken_off = true }
  handed_over wanted (some vs) = record { called = hand_over wanted vs; broken_off = false }

  -- The callback of getLogs: anything but an array has no map.
  unfoldable pub on_logs : Filter Big → Wanted → Manager.Reply → Heard Big
  unfolding format_logs
  on_logs f wanted (Manager.failed e) = record {
    called = (callback_in wanted, told_error e) ∷ [];
    broken_off = false;
  }
  on_logs f wanted (Manager.done (some (Json.arr logs))) =
      handed_over wanted (format_logs f.formatter (items logs))
  on_logs f wanted (Manager.done _) = record { called = []; broken_off = true }

  -- With no callback left nobody hears anything.
  hear-nobody :
      (react : ℕ → Told Big → List ℕ → List ℕ) (fm : Option (Formatter Big)) (messages : List Json)
      (vs : List (Value Big))
      → format_logs fm messages ≡ some vs
      → hear react fm [] messages ≡ record { called = []; broken_off = false }
  unfolding hear format_logs
  hear-nobody react fm [] vs h = refl
  hear-nobody react fm (m ∷ ms) vs h = elim (Option-cases (format fm m)) [
    | inl n ↦ absurd (ground arith)
    | inr (v, p) ↦ elim (Option-cases (format_logs fm ms)) [
      | inl n ↦ absurd (ground arith)
      | inr (ws, q) ↦ rw (p, hear-nobody react fm ms ws q) refl
    ]
  ]

  abbrev pub first_or_all : Bool → List (Value Big) → List (Value Big)
  first_or_all false vs = vs
  first_or_all true [] = []
  first_or_all true (v ∷ vs) = v ∷ []

  hear-format_logs :
      (react : ℕ → Told Big → List ℕ → List ℕ) (fm : Option (Formatter Big)) (c : ℕ) (stops : Bool)
      (messages : List Json) (vs : List (Value Big))
      → format_logs fm messages ≡ some vs
      → ((v : Value Big) → react c (told v) (c ∷ []) ≡ left stops c)
      → hear react fm (c ∷ []) messages
        ≡ record { called = tell_each c (first_or_all stops vs); broken_off = false }
  unfolding hear format_logs
  hear-format_logs react fm c false [] vs h r = ground arith
  hear-format_logs react fm c true [] vs h r =
      let none_left : [] ≡ vs = ground arith in
      ap (λ us. record { called = tell_each c (first_or_all true us); broken_off = false })
        none_left
  hear-format_logs react fm c false (m ∷ ms) vs h r = elim (Option-cases (format fm m)) [
    | inl n ↦ absurd (ground arith)
    | inr (v, p) ↦ elim (Option-cases (format_logs fm ms)) [
      | inl n ↦ absurd (ground arith)
      | inr (ws, q) ↦
          let same : v ∷ ws ≡ vs = ground arith in
          rw (← same, p, r v, hear-format_logs react fm c false ms ws q r) refl
    ]
  ]
  hear-format_logs react fm c true (m ∷ ms) vs h r = elim (Option-cases (format fm m)) [
    | inl n ↦ absurd (ground arith)
    | inr (v, p) ↦ elim (Option-cases (format_logs fm ms)) [
      | inl n ↦ absurd (ground arith)
      | inr (ws, q) ↦
          let same : v ∷ ws ≡ vs = ground arith in
          rw (← same, p, r v, hear-nobody react fm ms ws q) refl
    ]
  ]

  -- A callback of a poll that it alone watches, whose calls return and either leave the callbacks of
  -- the filter as they are or stop the filter at any message: if a formatter raises no exception on
  -- any of the messages, it hears all of them or only the first. When it starts to watch, it hears
  -- all logs so far in either case.
  pub on_message-on_logs :
      (react : ℕ → Told Big → List ℕ → List ℕ) (f : Filter Big) (c : ℕ) (stops : Bool)
      (messages : Json.Items) (vs : List (Value Big))
      → f.callbacks ≡ c ∷ []
      → ((v : Value Big) → react c (told v) (c ∷ []) ≡ left stops c)
      → format_logs f.formatter (items messages) ≡ some vs
      → (on_message react f (Manager.done (some (Json.arr messages)))
          ≡ record { called = tell_each c (first_or_all stops vs); broken_off = false })
        × (on_logs f (at_start c) (Manager.done (some (Json.arr messages)))
            ≡ record { called = tell_each c vs; broken_off = false })
  unfolding on_message on_logs
  on_message-on_logs react f c stops messages vs e r h = (
    ap (λ cs. hear react f.formatter cs (items messages)) e
        ∙ hear-format_logs react f.formatter c stops (items messages) vs h r,
    ap (handed_over (at_start c)) h,
  )
