-- ===== src/Options/Tests.antt =====
-- Concrete strings, with the characters a = 97, b = 98, c = 99, d = 100.
use qth_frame.Base.{ℕ, ◌≡◌, refl, true, some, [], ◌∷◌, arith}
use qth_frame.Options.{Str, space, str_split, lookup, parse, reverse}
use qth_frame.Options.Split.{pieces, join, IsSplit, str_split-IsSplit, split-join}
use qth_frame.Options.Parse.{first_value, parse-lookup}
use qth_frame.Options.Print.{IsWord, parse-reverse}

-- "a=b c=d"
abbrev line : Str
line = 97 ∷ 61 ∷ 98 ∷ 32 ∷ 99 ∷ 61 ∷ 100 ∷ []

str_split-IsSplit_example : IsSplit 32 line (str_split [] line 32)
str_split-IsSplit_example = str_split-IsSplit line 32

split-join_example :
    str_split [] (join 32 ((97 ∷ []) ∷ [] ∷ (98 ∷ []) ∷ [])) 32
    ≡ some ((97 ∷ []) ∷ [] ∷ (98 ∷ []) ∷ [])
split-join_example =
    split-join 32 (97 ∷ []) ([] ∷ (98 ∷ []) ∷ [])
      (((λ e. omega arith), tt), (tt, (((λ e. omega arith), tt), tt)))

parse-lookup_example : lookup (99 ∷ []) (parse line).1 ≡ first_value (99 ∷ []) (pieces space line)
parse-lookup_example = parse-lookup line (99 ∷ [])

letter : (c : ℕ) → 97 ≡ c → IsWord (c ∷ [])
letter c e = record {
  some_char = refl;
  no_space = ((λ p. omega arith), tt);
  no_equals = ((λ p. omega arith), tt);
}

abbrev one_pair : Str × Str
one_pair = (97 ∷ [], 97 ∷ [])

parse-reverse_example : parse (reverse (one_pair ∷ [])) ≡ (true, one_pair ∷ [])
parse-reverse_example = parse-reverse one_pair [] ((letter 97 refl, letter 97 refl), tt) (tt, tt)
