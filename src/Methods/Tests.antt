-- ===== src/Methods/Tests.antt =====
-- Methods of the tables, called with arguments.
use ultron.Prelude.{◌≡◌, refl, true, none, [], ◌∷◌, replicate}
use ultron.Prelude.Int.{ℤ, pos}
use ultron.Text.{codes}
use ultron.Rpc.{invalid_number_of_params}
use ultron.BigNumber.Integers.{integers}
use ultron.Value.{Value, str, num}
use ultron.Method.{to_payload, refused, get_call, format_input, validate_args, extract_callback}
use ultron.Messages.{Runtime, settings}
use ultron.Methods.Actions
use ultron.Methods.Tables.{to_payload-refused}

abbrev runtime : Runtime
runtime = record {
  big_number = integers;
  sha3 = λ t. replicate 64 b'f';
  utf8_encode = λ t. t;
  is_finite = λ t. true;
  stringify = λ v. codes "{}";
}

refused_runs :
    (to_payload (Actions.submit_work runtime settings) (num (pos 1) ∷ [])).1
    ≡ refused invalid_number_of_params
unfolding to_payload get_call format_input validate_args extract_callback
refused_runs = refl

to_payload-refused_example : (Actions.submit_work runtime settings).input_formatter ≡ none
to_payload-refused_example =
    to_payload-refused runtime settings 20 (Actions.submit_work runtime settings) (num (pos 1) ∷ [])
      invalid_number_of_params refl refused_runs

abbrev latest : Value ℤ
latest = str (codes "latest")
