-- ===== src/Convert/Json/Tests.antt =====
-- A call with a string and a number, and a buffer that empty strings overrun.
use libaergo.Base.{ℕ, ◌≡◌, refl, arith, List, [], ◌∷◌, ◌++◌, replicate}
use libaergo.Convert.Json.{Argument, text, blob, json, overrun, hex, arguments_to_json}
use libaergo.Convert.Json.Render.{array, items, arguments_to_json-array}
use libaergo.Convert.Json.Overrun.{arguments_to_json-overrun}

-- No double is printed.
abbrev no_text : ℕ → List ℕ
no_text x = []

abbrev arguments : List (Argument ℕ)
arguments = text (97 ∷ 98 ∷ []) ∷ blob (171 ∷ []) ∷ []

-- ["ab","AB"]
array_lem : array no_text arguments ≡ 91 ∷ 34 ∷ 97 ∷ 98 ∷ 34 ∷ 44 ∷ 34 ∷ 65 ∷ 66 ∷ 34 ∷ 93 ∷ []
unfolding array items hex
array_lem = refl

arguments_to_json_run :
    arguments_to_json 64 no_text arguments ≡ json (array no_text arguments ++ (0 ∷ []))
arguments_to_json_run =
    arguments_to_json-array no_text 64 arguments (refl, (refl, tt)) (rw array_lem (omega arith))

arguments_to_json-overrun_example : arguments_to_json 8 no_text (replicate 8 (text [])) ≡ overrun
arguments_to_json-overrun_example = arguments_to_json-overrun no_text 8 8 (omega arith)
