-- ===== src/Manager/Replies.antt =====
-- A reply to a batch of polls reaches the callback of the poll that asked.
use ultron.Prelude.{
  ℕ, zero, suc, ◌+◌, ◌≡◌, ◌≢◌, refl, sym, ap, ◌∙◌, Bool, true, false, not, Option, none, some, List,
  [], ◌∷◌, ◌++◌, map, arith, get_elem?, if◌then◌else◌, Bool-cases, inl, inr,
}
use mathlib.Core.Option
use ultron.Prelude.Int.{pos}
use ultron.Text.{Text, codes, text_eq_iff, text_eq_refl}
use ultron.Text.Radix.{value, value-digits}
use ultron.Text.Number.{int, number_text}
use ultron.Json.{Json, null, num, arr, items, of_list, member, property_key}
use ultron.Dictionary.{lookup}
use ultron.Rpc.{Request, Payload, invalid_response, to_batch_payload, is_valid_response}
use ultron.Manager.{
  Manager, Poll, Batch, Event, Reply, called, done, failed, delivered, arrived, poll, id_keys,
  poll_key, receive_poll, event_for, is_null, any, events, claim,
}

number_text_injective : (a b : ℕ) → number_text (int (pos a)) ≡ number_text (int (pos b)) → a ≡ b
unfolding number_text
number_text_injective a b e =
    sym (value-digits 10 a (omega arith) (omega arith))
    ∙ ap (value 10) e
    ∙ value-digits 10 b (omega arith) (omega arith)

abbrev requests : List (Text × Poll) → List Request
requests = map (λ (_, q). q.request)

-- In a batch that starts behind the counter, the i-th id is i + 1 more, and leads to the i-th key.
id_at :
    (n i : ℕ) (rs : List Request) (p : Payload)
    → get_elem? (to_batch_payload n rs).0 i ≡ some p
    → p.id ≡ n + 1 + i
unfolding to_batch_payload
id_at n i [] p e = cc
id_at n zero (r ∷ rs) p e = ground arith
id_at n (suc i) (r ∷ rs) p e = omega (arith, id_at (n + 1) i rs p e)

key_at :
    (n i : ℕ) (polls : List (Text × Poll)) (p : Payload) (key : Text) (q : Poll)
    → get_elem? (to_batch_payload n (requests polls)).0 i ≡ some p
    → get_elem? polls i ≡ some (key, q)
    → lookup (number_text (int (pos p.id))) (id_keys (to_batch_payload n (requests polls)).0 polls)
      ≡ some key
unfolding to_batch_payload lookup
key_at n i [] p key q e f = cc
key_at n zero ((k, r) ∷ rest) p key q e f =
    let same : p.id ≡ n + 1 = omega (arith, id_at n 0 (requests ((k, r) ∷ rest)) p e) in
    rw (same, text_eq_refl (number_text (int (pos (n + 1))))) (ground arith)
key_at n (suc i) ((k, r) ∷ rest) p key q e f =
    let later : p.id ≡ n + 1 + suc i = id_at n (suc i) (requests ((k, r) ∷ rest)) p e in
    let other : n + 1 ≢ p.id = omega arith in
    ground (
      arith,
      text_eq_iff (number_text (int (pos (n + 1)))) (number_text (int (pos p.id))),
      number_text_injective (n + 1) p.id,
      key_at (n + 1) i rest p key q e f,
    )

-- What the callback hears of a reply.
abbrev pub heard : Json → Reply
heard reply =
    if is_valid_response (some reply)
    then done (member (codes "result") (some reply))
    else failed (invalid_response (some reply))

abbrev pub told : Option Poll → Json → List Event
told none reply = []
told (some q) reply = called q.callback (heard reply) ∷ []

abbrev pub picks : Bool → Json → Bool
picks true reply = is_valid_response (some reply)
picks false reply = not (is_valid_response (some reply))

-- Those of some replies that are valid, or those that are not, each told to the poll whose key
-- stands beside it.
abbrev pub told_in : Bool → Manager → List Json → List Text → List Event
told_in valid later (reply ∷ replies) (key ∷ keys) =
    let rest = told_in valid later replies keys in
    if picks valid reply then told (lookup key later.polls) reply ++ rest else rest
told_in valid later _ _ = []

-- Replies to a batch of polls, in any order: each has the id of one of the payloads, and beside it
-- stands the key of the poll that the payload was for.
pub data Answered (m : Manager) (b : Batch) : List Json → List Text → Type 0 where
  no_more : Answered m b [] []
  one_more :
      (i : ℕ) (p : Payload) (key : Text) (q : Poll) (reply : Json) (replies : List Json)
      (keys : List Text)
      → get_elem? b.payloads i ≡ some p
      → get_elem? m.polls i ≡ some (key, q)
      → member (codes "id") (some reply) ≡ some (num (pos p.id))
      → Answered m b replies keys
      → Answered m b (reply ∷ replies) (key ∷ keys)

not_null : (reply : Json) → reply ≢ null → is_null reply ≡ false
not_null null n = absurd (n refl)
not_null _ n = refl

member-ne_null :
    (name : Text) (reply : Json) {v : Json} → member name (some reply) ≡ some v → reply ≢ null
unfolding member
member-ne_null name null h e = cc
member-ne_null name reply h e = cc

poll-batch :
    (m : Manager) (b : Batch)
    → (poll m).1 ≡ some b
    → (b.payloads ≡ (to_batch_payload m.message_id (requests m.polls)).0)
      × (b.poll_keys ≡ id_keys b.payloads m.polls)
unfolding poll
poll-batch m b e = ground arith

poll_key-id :
    (poll_keys : List (Text × Text)) (reply : Json) (n : ℕ) (key : Text)
    → member (codes "id") (some reply) ≡ some (num (pos n))
    → lookup (number_text (int (pos n))) poll_keys ≡ some key
    → poll_key poll_keys reply ≡ key
unfolding poll_key property_key
poll_key-id poll_keys reply n key e f =
    let found : lookup (property_key (member (codes "id") (some reply))) poll_keys ≡ some key =
      ap (λ t. lookup (property_key t) poll_keys) e ∙ f in
    rw (found, poll_key)

-- What the i-th payload of the batch leads to.
reply_key :
    (m : Manager) (b : Batch) (i : ℕ) (p : Payload) (key : Text) (q : Poll) (reply : Json)
    → (poll m).1 ≡ some b
    → get_elem? b.payloads i ≡ some p
    → get_elem? m.polls i ≡ some (key, q)
    → member (codes "id") (some reply) ≡ some (num (pos p.id))
    → poll_key b.poll_keys reply ≡ key
reply_key m b i p key q reply sent at_i poll_i id =
    let (payloads, keys) = poll-batch m b sent in
    poll_key-id b.poll_keys reply p.id key id
      (rw (keys, payloads) (key_at m.message_id i m.polls p key q (rw payloads at at_i) poll_i))

event-told :
    (o : Option Poll) (valid : Bool) (reply : Json) (rest : List Event)
    → elim (Option.map (λ (p : Poll). p.callback) o) [
      | none ↦ []
      | some callback ↦ event_for valid callback reply
    ]
        ++ rest
      ≡ (if picks valid reply then told o reply ++ rest else rest)
event-told none true reply rest = ground arith
event-told none false reply rest = ground arith
event-told (some q) true reply rest = elim (Bool-cases (is_valid_response (some reply))) [
  | inl valid ↦ rw valid refl
  | inr invalid ↦ rw invalid refl
]
event-told (some q) false reply rest = elim (Bool-cases (is_valid_response (some reply))) [
  | inl valid ↦ rw valid refl
  | inr invalid ↦ rw invalid refl
]

events-told :
    (m later : Manager) (b : Batch) (valid : Bool) (replies : List Json) (keys : List Text)
    → (poll m).1 ≡ some b
    → Answered m b replies keys
    → events later b.poll_keys valid replies ≡ told_in valid later replies keys
unfolding events claim
events-told m later b valid _ _ sent no_more = refl
events-told m later b valid _ _ sent (one_more i p key q reply replies keys at_i poll_i id more) =
    rw
      (
        reply_key m b i p key q reply sent at_i poll_i id,
        events-told m later b valid replies keys sent more,
      )
      (event-told (lookup key later.polls) valid reply (told_in valid later replies keys))

nulls-none :
    (m : Manager) (b : Batch) (replies : List Json) (keys : List Text)
    → Answered m b replies keys
    → any is_null replies ≡ false
nulls-none m b _ _ no_more = refl
nulls-none m b _ _ (one_more i p key q reply replies keys at_i poll_i id more) =
    rw (not_null reply (member-ne_null (codes "id") reply id)) (nulls-none m b replies keys more)

items-of_list : (vs : List Json) → items (of_list vs) ≡ vs
items-of_list [] = refl
items-of_list (v ∷ vs) = ap (λ ws. v ∷ ws) (items-of_list vs)

-- A poll sends a payload for each poll that the manager has. When an array of replies arrives, in
-- any order, each with the id of one of the payloads, then each reply is heard by the callback of
-- the poll that asked, if the manager still has that poll then: first an error for each reply that
-- is not valid, then the result of each that is. No other callback is called.
pub receive_poll-poll :
    (m later : Manager) (b : Batch) (replies : List Json) (keys : List Text)
    → (poll m).1 ≡ some b
    → Answered m b replies keys
    → receive_poll later b.poll_keys (arrived (some (arr (of_list replies))))
      ≡ delivered (told_in false later replies keys ++ told_in true later replies keys)
unfolding receive_poll
receive_poll-poll m later b replies keys sent answered =
    rw
      (
        items-of_list replies,
        nulls-none m b replies keys answered,
        events-told m later b false replies keys sent answered,
        events-told m later b true replies keys sent answered,
      )
      refl
