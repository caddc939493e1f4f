-- ===== src/Methods/Tables.antt =====
-- The tables in methods/ of src/console/jsre/deps/web3.js are in order: a method that formats its
-- arguments has a formatter for each parameter.
use ultron.Prelude.{
  ℕ, zero, suc, ◌≡◌, refl, Option, none, some, List, [], ◌∷◌, ◌++◌, length, get_elem?,
  if◌then◌else◌, Bool-cases, Option-cases, inl, inr,
}
use ultron.Text.{codes}
use ultron.Rpc.{Error}
use ultron.Value.{Value, function}
use ultron.Method.{
  Method, Formatter, Call, fixed, computed, to_payload, refused, get_call, choose, ready,
  extract_callback, format_input, validate_args,
}
use ultron.Method.Arguments.{to_payload-ne-refused}
use ultron.Messages.{Runtime, Config}
use ultron.Methods.Calls.{
  block_call, uncle_call, transaction_from_block_call, get_block_transaction_count_call,
  uncle_count_call, new_filter_call, is_text,
}
use ultron.Methods.Eth
use ultron.Methods.Db
use ultron.Methods.Shh
use ultron.Methods.Personal
use ultron.Methods.Swarm
use ultron.Methods.Logs
use ultron.Methods.Whispers

same_value {ℓ} : {A : Type ℓ} (x y : A) → some x ≡ some y → x ≡ y
same_value x y e = cc

module _ {Big : Type 0} where
  -- Formatters, if there are any, for each parameter, whose number the call does not change.
  abbrev pub MatchesParams : Option (List (Option (Formatter Big))) → Call Big → ℕ → Type 0
  MatchesParams none call params = Unit {0}
  MatchesParams (some fs) (fixed t) params = length fs ≡ params
  MatchesParams (some fs) (computed f) params =
      (length fs ≡ params) × ((args : List (Value Big)) → (f args).new_params ≡ none)

  abbrev pub AllMatch : List (Method Big) → Type 0
  AllMatch [] = Unit {0}
  AllMatch (m ∷ ms) = MatchesParams m.input_formatter m.call m.params × AllMatch ms

  AllMatch-append : (ms ns : List (Method Big)) → AllMatch ms → AllMatch ns → AllMatch (ms ++ ns)
  AllMatch-append [] ns h k = k
  AllMatch-append (m ∷ ms) ns h k = (h.0, AllMatch-append ms ns h.1 k)

  AllMatch-get_elem? :
      (ms : List (Method Big)) (i : ℕ) (m : Method Big)
      → AllMatch ms
      → get_elem? ms i ≡ some m
      → MatchesParams m.input_formatter m.call m.params
  AllMatch-get_elem? [] i m h e = cc
  AllMatch-get_elem? (n ∷ ms) zero m h e = rw (← same_value n m e) h.0
  AllMatch-get_elem? (n ∷ ms) (suc i) m h e = AllMatch-get_elem? ms i m h.1 e

  kept_params :
      (c : Call Big) (n : ℕ) (fs : List (Option (Formatter Big))) (args : List (Value Big))
      → MatchesParams (some fs) c n
      → (length fs ≡ n) × ((choose c args).new_params ≡ none)
  kept_params (fixed t) n fs args h = (h, refl)
  kept_params (computed f) n fs args h = (h.0, h.1 args)

  no_formatters :
      (m : Method Big) (args : List (Value Big)) (e : Error)
      → MatchesParams m.input_formatter m.call m.params
      → (to_payload m args).1 ≡ refused e
      → m.input_formatter ≡ none
  unfolding get_call
  no_formatters m args e s h = elim (Option-cases m.input_formatter) [
    | inl plain ↦ plain
    | inr (fs, g) ↦
        let (size, fixed_params) = kept_params m.call m.params fs args (rw g at s) in
        absurd (to_payload-ne-refused m fs args fixed_params g size e h)
  ]

module _ (rt : Runtime) (config : Config rt.big_number.Big) where
  open rt.big_number use {Big}

  -- Every method of the page, and those of filters.
  abbrev pub node_methods : List (Method Big)
  node_methods =
      Eth.methods rt config
      ++ (Db.methods rt config
          ++ (Shh.methods rt config
              ++ (Personal.methods rt config
                  ++ (Swarm.methods rt config
                      ++ (Logs.methods rt config ++ Whispers.methods rt config)))))

  node_methods-AllMatch : AllMatch node_methods
  unfolding block_call uncle_call transaction_from_block_call get_block_transaction_count_call
      uncle_count_call
  node_methods-AllMatch = (
    refl,
    (
      refl,
      (
        refl,
        (
          (refl, λ args. refl),
          (
            (refl, λ args. refl),
            (
              tt,
              (
                (refl, λ args. refl),
                (
                  (refl, λ args. refl),
                  (
                    tt,
                    (
                      (refl, λ args. refl),
                      (
                        tt,
                        (
                          refl,
                          (
                            refl,
                            (
                              refl,
                              (
                                refl,
                                (
                                  refl,
                                  (
                                    refl,
                                    (
                                      tt,
                                      (
                                        tt,
                                        (
                                          tt,
                                          (
                                            tt,
                                            (
                                              tt,
                                              (
                                                tt,
                                                (
                                                  tt,
                                                  (
                                                    tt,
                                                    (
                                                      tt,
                                                      (
                                                        refl,
                                                        (
                                                          tt,
                                                          (
                                                            tt,
                                                            (
                                                            tt,
                                                            (
                                                            tt,
                                                            (
                                                            refl,
                                                            (
                                                            refl,
                                                            (
                                                            refl,
                                                            (
                                                            refl,
                                                            (
                                                            refl,
                                                            (
                                                            refl,
                                                            (
                                                            refl,
                                                            (
                                                            refl,
                                                            (
                                                            refl,
                                                            (
                                                            refl,
                                                            (
                                                            refl,
                                                            (
                                                            refl,
                                                            (
                                                            refl,
                                                            (
                                                            refl,
                                                            (
                                                            tt,
                                                            (
                                                            tt,
                                                            (tt, (tt, (tt, (tt, (tt, (tt, tt)))))),
                                                            ),
                                                            ),
                                                            ),
                                                            ),
                                                            ),
                                                            ),
                                                            ),
                                                            ),
                                                            ),
                                                            ),
                                                            ),
                                                            ),
                                                            ),
                                                            ),
                                                            ),
                                                            ),
                                                            ),
                                                            ),
                                                          ),
                                                        ),
                                                      ),
                                                    ),
                                                  ),
                                                ),
                                              ),
                                            ),
                                          ),
                                        ),
                                      ),
                                    ),
                                  ),
                                ),
                              ),
                            ),
                          ),
                        ),
                      ),
                    ),
                  ),
                ),
              ),
            ),
          ),
        ),
      ),
    ),
  )

-- If the arguments of a method of the page are refused for their number, the method formats none:
-- a method with formatters takes too few arguments and too many.
pub to_payload-refused :
    (rt : Runtime) (config : Config rt.big_number.Big) (i : ℕ) (m : Method rt.big_number.Big)
    (args : List (Value rt.big_number.Big)) (e : Error)
    → get_elem? (node_methods rt config) i ≡ some m
    → (to_payload m args).1 ≡ refused e
    → m.input_formatter ≡ none
to_payload-refused rt config i m args e found h =
    no_formatters m args e
      (AllMatch-get_elem? (node_methods rt config) i m (node_methods-AllMatch rt config) found) h

-- The filter on an option asks the node for a filter on blocks at "latest", on pending transactions
-- at "pending", and both take no parameter; any other option is the only parameter of a filter.
pub to_payload-new_filter :
    (rt : Runtime) (config : Config rt.big_number.Big) (option : Value rt.big_number.Big) (f : ℕ)
    → (to_payload (Logs.new_filter rt config) (option ∷ function f ∷ [])).1 ≡ (
        if is_text (codes "latest") option
        then ready (record { method = codes "eth_newBlockFilter"; params = []; callback = some f })
        else if is_text (codes "pending") option
        then ready (record {
          method = codes "eth_newPendingTransactionFilter";
          params = [];
          callback = some f;
        })
        else ready
            (record { method = codes "eth_newFilter"; params = option ∷ []; callback = some f }))
unfolding to_payload get_call new_filter_call extract_callback format_input validate_args
to_payload-new_filter rt config option f = elim (Bool-cases (is_text (codes "latest") option)) [
  | inl blocks ↦ rw blocks
  | inr other ↦ elim (Bool-cases (is_text (codes "pending") option)) [
    | inl pending ↦ rw (other, pending)
    | inr plain ↦ rw (other, plain)
  ]
]
