-- ===== src/Manager/Sending.antt =====
-- What the request manager does with requests and with its table of polls.
use ultron.Prelude.{
  ℕ, ◌≡◌, ◌≢◌, refl, sym, ap, ◌∙◌, true, false, Option, none, some, arith, if◌then◌else◌,
  Bool-cases, inl, inr, Option-cases,
}
use ultron.Text.{Text, codes, text_eq}
use ultron.Json.{Json, arr, member, truthy}
use ultron.Dictionary.{lookup, insert, erase, lookup-insert, lookup-erase}
use ultron.Rpc.{Request, to_payload, is_valid_message, is_valid_response}
use ultron.Manager.{
  Manager, Poll, Provider, returned, send, start_polling, stop_polling, stop_timer, answer,
}
use ultron.Manager.Invariant.{poll_fields}

abbrev pub IsArray : Option Json → Type 0
IsArray (some (arr vs)) = Unit {0}
IsArray _ = ⊥

valid-parts :
    (response : Option Json)
    → is_valid_message response ≡ true
    → (truthy (member (codes "error") response) ≡ false) × (member (codes "result") response ≢ none)
unfolding is_valid_message
valid-parts response h = (ground arith, ground arith)

is_valid_response-message :
    (response : Option Json)
    → ¬ (IsArray response)
    → is_valid_response response ≡ is_valid_message response
unfolding is_valid_response
is_valid_response-message none n = refl
is_valid_response-message (some (arr vs)) n = absurd (n tt)
is_valid_response-message (some v) n = refl

answer-returned :
    (response v : Option Json)
    → ¬ (IsArray response)
    → answer response ≡ returned v
    → (truthy (member (codes "error") response) ≡ false)
      × (v ≡ member (codes "result") response)
      × (v ≢ none)
answer-returned response v n e = elim (Bool-cases (is_valid_response response)) [
  | inl valid ↦
      let (error_free, defined) =
        valid-parts response (sym (is_valid_response-message response n) ∙ valid) in
      let same : v ≡ member (codes "result") response = ground arith in
      (error_free, same, λ e'. defined (sym same ∙ e'))
  | inr invalid ↦ absurd (ground arith)
]

pub start_polling-polls :
    (m : Manager) (r : Request) (key : Text) (callback uninstall : ℕ)
    → (start_polling m r key callback uninstall).0.polls
      ≡ insert key (record { request = r; callback = callback; uninstall = uninstall }) m.polls
unfolding start_polling
start_polling-polls m r key callback uninstall = elim (Option-cases m.timeout) [
  | inl off ↦ rw off (poll_fields _).0
  | inr (t, on) ↦ rw on
]

pub stop_timer-polls : (m : Manager) → (stop_timer m).polls ≡ m.polls
unfolding stop_timer
stop_timer-polls m = ground arith

-- A poll that is started is found under its key, and leaves the others as they were; when it is
-- stopped, its key is free and the others are as before.
pub stop_polling-start_polling :
    (m : Manager) (r : Request) (key j : Text) (callback uninstall : ℕ)
    → (lookup j (start_polling m r key callback uninstall).0.polls ≡ (
        if text_eq key j
        then some (record { request = r; callback = callback; uninstall = uninstall })
        else lookup j m.polls))
      × (lookup j (stop_polling (start_polling m r key callback uninstall).0 key).polls
          ≡ (if text_eq key j then none else lookup j m.polls))
unfolding stop_polling
stop_polling-start_polling m r key j callback uninstall =
    let started = start_polling-polls m r key callback uninstall in
    let entry : Poll = record { request = r; callback = callback; uninstall = uninstall } in
    let found = lookup-insert key j entry m.polls in
    (
      ap (lookup j) started ∙ found,
      ap (lookup j) (stop_timer-polls _ ∙ ap (erase key) started)
          ∙ lookup-erase key j (insert key entry m.polls)
          ∙ ground (arith, found),
    )

send-provider :
    (m : Manager) (p : Provider) (r : Request)
    → m.provider ≡ some p
    → ((send m r).1 ≡ answer (p.send (to_payload m.message_id r).0))
      × ((send m r).0.message_id ≡ (to_payload m.message_id r).0.id)
unfolding send
send-provider m p r e = rw (e, send) (refl, refl)

-- What `send` returns through a provider is the defined result of a response without an error, if
-- the response is no array; and the counter is then at the id of the request.
pub send-returned :
    (m : Manager) (p : Provider) (r : Request) (response v : Option Json)
    → m.provider ≡ some p
    → p.send (to_payload m.message_id r).0 ≡ response
    → ¬ (IsArray response)
    → (send m r).1 ≡ returned v
    → (truthy (member (codes "error") response) ≡ false)
      × (v ≡ member (codes "result") response)
      × (v ≢ none)
      × ((send m r).0.message_id ≡ (to_payload m.message_id r).0.id)
send-returned m p r response v e f n h =
    let (answered, counted) = send-provider m p r e in
    let (error_free, same, defined) =
      answer-returned response v n (ap answer (sym f) ∙ sym answered ∙ h) in
    (error_free, same, defined, counted)
