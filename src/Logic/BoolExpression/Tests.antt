-- ===== src/Logic/BoolExpression/Tests.antt =====
-- Runs of the calculator, and the theorems at concrete expressions.
use ytlib.Base.{◌≡◌, refl, Bool, true, false, none, some, [], ◌∷◌, ◌==◌}
use ytlib.Logic.BoolExpression.{
  value, Key, key_passes, is_symbol, priority, pop_until, pop_while, push_operator, shunt, scan,
  check_operand, check_bracket, check_key, check_char, check_from, check_exp, pre_calc, calc_token,
  calc_from, calc_mid, calc,
}
use ytlib.Logic.BoolExpression.Syntax.{
  Exp, atom, binary, key, not_group, both, either, print, eval, postfix, IsKey, Keys,
}
use ytlib.Logic.BoolExpression.Value.{calc_mid-postfix, pre_calc-print, calc-print}

-- a|!(b&cd)
abbrev sample : Exp
sample =
    binary (atom (key (b'a' ∷ []))) either
      (not_group (binary (atom (key (b'b' ∷ []))) both (key (b'c' ∷ b'd' ∷ []))))

abbrev only_cd : Key → Bool
only_cd (x ∷ y ∷ []) = true
only_cd _ = false

abbrev only_b : Key → Bool
only_b (x ∷ []) = x == b'b'
only_b _ = false

print-sample : print sample ≡ b'a' ∷ b'|' ∷ b'!' ∷ b'(' ∷ b'b' ∷ b'&' ∷ b'c' ∷ b'd' ∷ b')' ∷ []
unfolding print
print-sample = refl

sample-IsKey : Keys IsKey sample
unfolding Keys is_symbol
sample-IsKey = ((refl, tt), ((refl, tt), (refl, (refl, tt))))

sample_passes : Keys (λ k. key_passes none k ≡ true) sample
unfolding Keys
sample_passes = (refl, (refl, refl))

calc-sample : calc none (some only_b) (print sample) ≡ value true
unfolding calc pre_calc check_exp check_from check_char check_operand check_bracket check_key scan
    shunt push_operator pop_while pop_until priority is_symbol calc_mid calc_from calc_token print
calc-sample = refl

unbalanced : check_exp none (b'a' ∷ b')' ∷ []) ≡ false
unfolding check_exp check_from check_char check_operand check_key
unbalanced = refl

calc-print_example : calc none (some only_cd) (print sample) ≡ value (eval only_cd sample)
calc-print_example = calc-print none only_cd sample sample-IsKey sample_passes

pre_calc-print_example : pre_calc none (print sample) ≡ value (postfix sample)
pre_calc-print_example = pre_calc-print none sample sample-IsKey sample_passes

calc_mid-postfix_example : calc_mid (some only_b) (postfix sample) ≡ value (eval only_b sample)
calc_mid-postfix_example = calc_mid-postfix only_b sample sample-IsKey
