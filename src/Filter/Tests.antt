-- ===== src/Filter/Tests.antt =====
-- A filter on the latest blocks, and the theorems at it.
use ultron.Prelude.{ℕ, ◌≡◌, refl, true, false, none, some, List, [], ◌∷◌, replicate}
use ultron.Prelude.Int.{ℤ, pos}
use ultron.Text.{Text, codes, text_eq}
use ultron.Json.{Json, str, obj, field, end, num, truthy, Items, items, cons, nil, arr}
use ultron.Dictionary.{lookup}
use ultron.BigNumber.Integers.{integers}
use ultron.Manager.{Provider, done}
use ultron.Manager.Invariant.{initial}
use ultron.Value
use ultron.Value.{Value, Values}
use ultron.Messages.{input_block_number, Runtime, settings}
use ultron.Filter.{at_start, Filter, Step, create, created, stop_watching}
use ultron.Filter.Options.{get_options, has_topics, get_options-has_topics}
use ultron.Filter.Answers.{format_logs, on_message, on_logs, on_message-on_logs}
use ultron.Method.{Told, told}
use ultron.Methods.Logs
use ultron.Filter.Lifetime.{key, poll_of, created-stop_watching}

abbrev runtime : Runtime
runtime = record {
  big_number = integers;
  sha3 = λ t. replicate 64 b'f';
  utf8_encode = λ t. t;
  is_finite = λ t. true;
  stringify = λ v. codes "{}";
}

abbrev shown : ℤ → Text
shown z = codes "0"

abbrev node : Provider
node = record {
  send = λ p. some (
      obj (
        field (codes "jsonrpc") (str (codes "2.0"))
          (field (codes "id") (num (pos p.id)) (field (codes "result") (str (codes "0x1")) end))));
}

abbrev blocks : Filter ℤ
blocks = record {
  options = Value.str (codes "latest");
  implementation = record {
    new_filter = Logs.new_filter runtime settings;
    uninstall_filter = Logs.uninstall_filter runtime settings;
    get_logs = Logs.get_logs runtime settings;
    poll = codes "eth_getFilterChanges";
  };
  filter_id = Json.null;
  callbacks = [];
  get_logs_callbacks = [];
  formatter = none;
  on_message = 5;
  stop = 6;
}

abbrev asked : Step ℤ
asked = create shown (initial (some node)) blocks 4 (some 7)

abbrev id : Json
id = str (codes "0x1")

abbrev polled : Step ℤ
polled = created shown asked id (some 7)

counts : truthy (some id) ≡ true
unfolding truthy
counts = refl

created-stop_watching_example :
    (lookup
        (key (record (asked.filter) { filter_id = id }))
        (created shown (stop_watching shown asked none) id (some 7)).manager.polls
      ≡ some (poll_of (record (asked.filter) { filter_id = id })))
    × ((j : Text)
        → lookup j (created shown (stop_watching shown asked none) id none).manager.polls
          ≡ lookup j (stop_watching shown asked none).manager.polls)
created-stop_watching_example = created-stop_watching shown asked id none 7 counts

-- A filter on topics: any in the first place, one of a list in the second.
abbrev topics : Values ℤ
topics =
    Value.cons Value.null
      (Value.cons (Value.arr (Value.cons (Value.str (codes "0xab")) Value.nil)) Value.nil)

abbrev logs : Value ℤ
logs = Value.obj (Value.field (codes "topics") (Value.arr topics) Value.end)

abbrev kept : Value ℤ
kept = Value.obj (
    Value.field (codes "topics") (Value.arr topics) (
      Value.field (codes "from") Value.undefined (
        Value.field (codes "to") Value.undefined (
          Value.field (codes "address") Value.undefined (
            Value.field (codes "fromBlock") Value.undefined
              (Value.field (codes "toBlock") Value.undefined Value.end))))))

abbrev source_text : ℕ → Text
source_text f = codes "function () {}"

get_options_runs : get_options runtime source_text logs ≡ some kept
unfolding get_options text_eq input_block_number
get_options_runs = refl

get_options-has_topics_example : has_topics runtime source_text kept ≡ true
get_options-has_topics_example =
    get_options-has_topics runtime source_text logs kept get_options_runs

abbrev watched : Filter ℤ
watched = record blocks { callbacks = 7 ∷ [] }

abbrev messages : Items
messages = cons (str (codes "0xaa")) (cons (str (codes "0xbb")) nil)

formatted :
    format_logs watched.formatter (items messages)
    ≡ some (Value.str (codes "0xaa") ∷ Value.str (codes "0xbb") ∷ [])
unfolding format_logs
formatted = refl

-- Each call stops the filter.
abbrev stop_at_once : ℕ → Told ℤ → List ℕ → List ℕ
stop_at_once c t callbacks = []

on_message-on_logs_example :
    (on_message stop_at_once watched (done (some (arr messages)))
      ≡ record { called = (7, told (Value.str (codes "0xaa"))) ∷ []; broken_off = false })
    × (on_logs watched (at_start 7) (done (some (arr messages))) ≡ record {
      called = (7, told (Value.str (codes "0xaa"))) ∷ (7, told (Value.str (codes "0xbb"))) ∷ [];
      broken_off = false;
    })
on_message-on_logs_example =
    on_message-on_logs stop_at_once watched 7 true messages
      (Value.str (codes "0xaa") ∷ Value.str (codes "0xbb") ∷ []) refl (λ v. refl) formatted
