-- ===== src/Formatters/Tests.antt =====
-- Numbers through words and back, with integers for big numbers.
use ultron.Prelude.{◌-◌, ◌≡◌, some, arith, ◌^◌}
use ultron.Prelude.Int.{pos, negsuc}
use ultron.BigNumber.Integers.{integers, integers-IsExact}
use ultron.Utils.{number}
use ultron.Formatters.{SolidityParam, format_input_int, format_output_int}
use ultron.Formatters.Signed.{format_output_int-wraps}

format_output_int-wraps_example :
    (p : SolidityParam) × (format_input_int integers (number (pos (2 ^ 254))) ≡ some p)
    × (format_output_int integers p
        ≡ some (integers-IsExact.of_int (negsuc (2 ^ 256 - 1 - 2 ^ 254))))
format_output_int-wraps_example =
    format_output_int-wraps integers integers-IsExact (2 ^ 254) (omega arith) (omega arith)
