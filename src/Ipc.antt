-- ===== src/Ipc.antt =====
-- ipcprovider.js of src/console/jsre/deps/web3.js: requests over a local socket. Answers come in chunks,
-- and each goes to the callback that waits under its id. Callbacks are numbers. A null in an array of
-- answers is left out, and so is what a callback itself does to the provider while it is called; but
-- it may throw.
pub mod Chunks
pub mod Pending
pub mod Runs
pub mod Stuck
mod Tests
use ultron.Prelude.{
  ℕ, ◌+◌, Bool, true, false, Option, none, some, List, [], ◌∷◌, ◌++◌, map, if◌then◌else◌, ◌==◌,
}
use mathlib.Core.Option
use ultron.Text.{Text, codes}
use ultron.Text.Number.{int, number_text}
use ultron.Prelude.Int.{pos}
use ultron.Json.{Json, arr, str, items, member, truthy, property_key}
use ultron.Dictionary.{lookup, insert, erase}
use ultron.Rpc.{Error, Payload, invalid_connection, invalid_response}
use ultron.Manager.{Arrival, broken, arrived}
use ultron.Ipc.Chunks.{dechunk}

-- The socket: whether it can be written to, and writeSync, if it has that.
pub record Connection : Type 0 where
  pub writable : Bool
  pub write_sync : Option (Text → Text)

pub record Waiting : Type 0 where
  pub callback : ℕ
  pub method : Text

pub record IpcProvider : Type 0 where
  pub path : Text
  pub connection : Connection
  pub response_callbacks : List (Text × Waiting)
  pub last_chunk : Option Text
  pub last_chunk_timeout : Option ℕ
  -- The timers that will fire, each with the text that it was set for, and how many were made.
  pub running : List (ℕ × Text)
  pub timers : ℕ

pub data Message : Type 0 where
  single : Payload → Message
  batch : List Payload → Message

pub data Effect : Type 0 where
  connected : Text → Effect
  written : Text → Effect
  called : ℕ → Arrival → Effect
  thrown : Error → Effect

pub data Answer : Type 0 where
  returned : Json → Answer
  refused : Error → Answer
  -- 'Synchronous requests are not supported by the IPC provider.'
  unsupported : Text → Answer

-- The socket is what net.connect gives.
unfoldable pub create : Text → Connection → IpcProvider
create path connection = record {
  path = path;
  connection = connection;
  response_callbacks = [];
  last_chunk = none;
  last_chunk_timeout = none;
  running = [];
  timers = 0;
}

abbrev pub stop_timer : Option ℕ → List (ℕ × Text) → List (ℕ × Text)
stop_timer none ts = ts
stop_timer (some t) [] = []
stop_timer (some t) ((u, s) ∷ ts) =
    let rest = stop_timer (some t) ts in if u == t then rest else (u, s) ∷ rest

-- if (lastChunk) data = lastChunk + data
abbrev pub prepend : Option Text → Text → Text
prepend none s = s
prepend (some c) s = c ++ s

-- setTimeout after fifteen seconds, in place of the timer before.
unfoldable pub keep_chunk : IpcProvider → Text → IpcProvider
keep_chunk p text =
    let t = p.timers + 1 in
    record p {
      last_chunk = some text;
      last_chunk_timeout = some t;
      running = (t, text) ∷ stop_timer p.last_chunk_timeout p.running;
      timers = t;
    }

unfoldable pub drop_chunk : IpcProvider → IpcProvider
drop_chunk p = record p { last_chunk = none; running = stop_timer p.last_chunk_timeout p.running }

-- if (result) returnValues.push(result)
abbrev pub result_list : Json → List Json
unfolding truthy
result_list v = if truthy (some v) then v ∷ [] else []

-- The id of the last answer in an array that has a callback.
abbrev pub known_id : List (Text × Waiting) → Text → List Json → Text
unfolding lookup property_key member
known_id table id [] = id
known_id table id (v ∷ vs) = elim (lookup (property_key (member (codes "id") (some v))) table) [
  | none ↦ known_id table id vs
  | some w ↦ known_id table (property_key (member (codes "id") (some v))) vs
]

unfoldable pub id_of : List (Text × Waiting) → Json → Text
unfolding property_key member known_id
id_of table (arr vs) = known_id table (codes "null") (items vs)
id_of table v = property_key (member (codes "id") (some v))

-- `throws` tells whether a callback throws when it is called.
module _ (throws : ℕ → Arrival → Bool) where
  -- A callback is deleted when its call has returned. One that throws stays, and what it throws
  -- leaves the loop over the answers; that is the last component.
  abbrev pub deliver_to :
      IpcProvider → Json → Text → Option Waiting → IpcProvider × List Effect × Bool
  unfolding erase
  deliver_to p v key none = (p, [], false)
  deliver_to p v key (some w) =
      let es = called w.callback (arrived (some v)) ∷ [] in
      if throws w.callback (arrived (some v))
      then (p, es, true)
      else (record p { response_callbacks = erase key p.response_callbacks }, es, false)

  unfoldable pub deliver : IpcProvider → Json → IpcProvider × List Effect × Bool
  unfolding id_of lookup deliver_to
  deliver p v =
      let key = id_of p.response_callbacks v in deliver_to p v key (lookup key p.response_callbacks)

  unfoldable pub deliver_all : IpcProvider → List Json → IpcProvider × List Effect × Bool
  unfolding deliver
  deliver_all p [] = (p, [], false)
  deliver_all p (v ∷ vs) =
      let (p', es, stopped) = deliver p v in
      let (q, fs, stopped_later) = deliver_all p' vs in
      if stopped then (p', es, true) else (q, es ++ fs, stopped_later)

  -- Each callback that waits gets the error and is deleted, until one throws.
  unfoldable pub break_off : List (Text × Waiting) → List (Text × Waiting) × List Effect × Bool
  break_off [] = ([], [], false)
  break_off ((key, w) ∷ rest) =
      let (left, es, stopped) = break_off rest in
      let error = broken (invalid_connection (codes "on IPC")) in
      if throws w.callback error
      then ((key, w) ∷ rest, called w.callback error ∷ [], true)
      else (left, called w.callback error ∷ es, stopped)

  -- _timeout, on the end or an error of the connection too.
  unfoldable pub timeout : IpcProvider → IpcProvider × List Effect × Bool
  unfolding break_off
  timeout p =
      let (left, es, stopped) = break_off p.response_callbacks in
      (record p { response_callbacks = left }, es, stopped)

  -- The timer of a chunk: the chunk stays. Its own error is thrown if no callback has thrown.
  unfoldable pub fire : IpcProvider → ℕ → Text → IpcProvider × List Effect
  unfolding timeout
  fire p t text =
      let (q, es, stopped) = timeout (record p { running = stop_timer (some t) p.running }) in
      (q, es ++ (if stopped then [] else thrown (invalid_response (some (str text))) ∷ []))

abbrev pub key_of : Payload → Text
key_of q = number_text (int (pos q.id))

-- `none` is the exception for an empty batch.
unfoldable pub add_response_callback : IpcProvider → Message → ℕ → Option IpcProvider
unfolding insert number_text
add_response_callback p (single q) callback = some (record p {
  response_callbacks =
      insert (key_of q) (record { callback = callback; method = q.method }) p.response_callbacks;
})
add_response_callback p (batch []) callback = none
add_response_callback p (batch (q ∷ qs)) callback = some (record p {
  response_callbacks =
      insert (key_of q) (record { callback = callback; method = q.method }) p.response_callbacks;
})

-- A text that is no JSON is kept, and completed by the next one.
abbrev pub parsed_chunk : IpcProvider → Text → Option Json → IpcProvider × List Json
unfolding keep_chunk drop_chunk
parsed_chunk p text none = (keep_chunk p text, [])
parsed_chunk p text (some v) = (drop_chunk p, result_list v)

-- `parse` is JSON.parse, with `none` for an exception.
module _ (parse : Text → Option Json) where
  unfoldable pub parse_chunk : IpcProvider → Text → IpcProvider × List Json
  unfolding parsed_chunk
  parse_chunk p chunk = let text = prepend p.last_chunk chunk in parsed_chunk p text (parse text)

  unfoldable pub parse_chunks : IpcProvider → List Text → IpcProvider × List Json
  unfolding parse_chunk
  parse_chunks p [] = (p, [])
  parse_chunks p (c ∷ cs) =
      let (p', vs) = parse_chunk p c in let (q, ws) = parse_chunks p' cs in (q, vs ++ ws)

  unfoldable pub parse_response : IpcProvider → Text → IpcProvider × List Json
  unfolding parse_chunks dechunk
  parse_response p text = parse_chunks p (dechunk text)

module _ (throws : ℕ → Arrival → Bool) (parse : Text → Option Json) where
  unfoldable pub on_data : IpcProvider → Text → IpcProvider × List Effect × Bool
  unfolding parse_response deliver_all
  on_data p text = let (p', vs) = parse_response parse p text in deliver_all throws p' vs

-- `reconnect` is what connect of the socket makes of it, and `stringify` is JSON.stringify.
module _ (parse : Text → Option Json) (stringify : Message → Text)
    (reconnect : Connection → Connection) where
  -- try reconnect, when connection is gone
  unfoldable pub ensure : IpcProvider → IpcProvider × List Effect
  ensure p =
      if p.connection.writable
      then (p, [])
      else (record p { connection = reconnect p.connection }, connected p.path ∷ [])

  unfoldable pub is_connected : IpcProvider → IpcProvider × Bool
  unfolding ensure
  is_connected p = let (q, es) = ensure p in (q, q.connection.writable)

  abbrev parsed : Text → Option Json → Answer
  parsed text none = refused (invalid_response (some (str text)))
  parsed text (some v) = returned v

  abbrev method_of : Message → Text
  method_of (single q) = q.method
  method_of (batch qs) = codes "undefined"

  unfoldable pub send : IpcProvider → Message → IpcProvider × Answer
  unfolding ensure
  send p m = elim p.connection.write_sync [
    | none ↦ (p, unsupported (method_of m))
    | some write_sync ↦
        let (q, es) = ensure p in
        let text = write_sync (stringify m) in (q, parsed text (parse text))
  ]

  unfoldable pub send_async : IpcProvider → Message → ℕ → Option (IpcProvider × List Effect)
  unfolding ensure add_response_callback
  send_async p m callback =
      let (q, es) = ensure p in
      Option.map (λ r. (r, es ++ written (stringify m) ∷ [])) (add_response_callback q m callback)
