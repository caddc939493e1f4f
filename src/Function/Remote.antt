-- ===== src/Function/Remote.antt =====
-- A function of function.js in src/console/jsre/deps/web3.js stands for a function of the contract: what
-- the page gets is what the contract computes of the arguments.
use ultron.Prelude.{◌<◌, ◌≡◌, true, Option, none, some, List, [], ◌∷◌, ◌++◌, take, map}
use ultron.Text.{Text, codes}
use ultron.Json
use ultron.Json.{Json, member}
use ultron.Rpc
use ultron.Rpc.{is_valid_response}
use ultron.Manager.{Manager, Provider}
use ultron.Value.{Value, str}
use ultron.Methods.Actions
use ultron.Formatters.Numbers.{word_mod}
use ultron.Coder.{Libraries}
use ultron.Coder.Encode.{encode_params}
use ultron.Coder.Decode.{decode_params}
use ultron.Coder.Params.{Param, type_of, param_of, total}
use ultron.Function.{SolidityFunction}

abbrev first_json : List Json → Option Json
first_json [] = none
first_json (v ∷ vs) = some v

-- A property of a payload's options.
abbrev pub asked : Text → Rpc.Payload → Option Json
unfolding member
asked name q = member name (first_json q.params)

module _ (lib : Libraries) where
  open lib use {runtime}
  open lib.runtime use {sha3}
  open lib.runtime.big_number use {Big, to_text}

  -- The function of a contract at an address of the node: it answers an eth_call that goes to that
  -- address and has its selector, eight digits of the hash of its full name, by a value of the
  -- arguments that the rest of the data stands for, in the encoding of the outputs' types. Of other
  -- requests nothing is asked.
  pub record Contract (f : SolidityFunction Big) (address : Text) (p : Provider) : Type 0 where
    pub value_of : List (Value Big) → List Param
    pub text_of : List (Value Big) → Text
    pub types : (args : List (Value Big)) → map type_of (value_of args) ≡ f.output_types
    pub small : (args : List (Value Big)) → total (value_of args) < word_mod
    pub encoded :
        (args : List (Value Big))
        → encode_params lib (map type_of (value_of args)) (map param_of (value_of args))
          ≡ some (text_of args)
    pub answers :
        (q : Rpc.Payload) (body : Text) (args : List (Value Big))
        → q.method ≡ codes "eth_call"
        → asked (codes "to") q ≡ some (Json.str address)
        → asked (codes "data") q ≡ some (Json.str (codes "0x" ++ (take 8 (sha3 f.name) ++ body)))
        → decode_params lib f.input_types body ≡ some args
        → (is_valid_response (p.send q) ≡ true)
          × (member (codes "result") (p.send q) ≡ some (Json.str (codes "0x" ++ text_of args)))
