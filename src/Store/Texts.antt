-- ===== src/Store/Texts.antt =====
-- A text of a JSON value that is read back as it was written: what the store asks of the JSON library, by a stack
-- machine that is given the value's parts before the value.
use Prim.Native.Char.{Char, code}
use Prim.Native.Nat.{ℕ, zero, suc}
use Prim.Native.String.{String}
use mm_harness.Prelude.{Bool, true, false, if◌then◌else◌, ◌==◌, nat_eq, ◌≡◌, refl, ap, ◌∙◌}
use mm_harness.Json.{
  Json, Items, Fields, null, boolean, integer, real, string, array, object, pos, negsuc, nil, item,
  end, field,
}

pub data Stack : Type 0 where
  bottom : Stack
  number : ℕ → Stack → Stack
  text : String → Stack → Stack
  items : Items → Stack → Stack
  fields : Fields → Stack → Stack
  value : Json → Stack → Stack

-- the next instruction takes the character behind it
abbrev pub is_quote : Char → Bool
is_quote c = code c == 99

abbrev pub push : Char → Stack → Stack
push c (text s st) = text (String.◌∷◌ c s) st
push c st = st

abbrev pub increase : Stack → Stack
increase (number n st) = number (suc n) st
increase st = st

abbrev pub close_number : Stack → Stack
close_number (number n st) = value (integer (pos n)) st
close_number st = st

abbrev pub close_negative : Stack → Stack
close_negative (number n st) = value (integer (negsuc n)) st
close_negative st = st

abbrev pub close_real : Stack → Stack
close_real (text s st) = value (real s) st
close_real st = st

abbrev pub close_text : Stack → Stack
close_text (text s st) = value (string s) st
close_text st = st

abbrev pub add_item : Stack → Stack
add_item (value j (items is st)) = items (item j is) st
add_item st = st

abbrev pub close_items : Stack → Stack
close_items (items is st) = value (array is) st
close_items st = st

abbrev pub add_field : Stack → Stack
add_field (value j (text key (fields fs st))) = fields (field key j fs) st
add_field st = st

abbrev pub close_fields : Stack → Stack
close_fields (fields fs st) = value (object fs) st
close_fields st = st

-- c is left to `push`
abbrev pub step : ℕ → Stack → Stack
step n st =
    if n == 110
    then value null st
    else if n == 116
    then value (boolean true) st
    else if n == 102
    then value (boolean false) st
    else if n == 48
    then number zero st
    else if n == 83
    then increase st
    else if n == 43
    then close_number st
    else if n == 45
    then close_negative st
    else if n == 34
    then text String.[] st
    else if n == 114
    then close_real st
    else if n == 115
    then close_text st
    else if n == 91
    then items nil st
    else if n == 44
    then add_item st
    else if n == 93
    then close_items st
    else if n == 123
    then fields end st
    else if n == 58
    then add_field st
    else if n == 125
    then close_fields st
    else st

unfoldable pub run : Bool → String → Stack → Stack
run quoted String.[] st = st
run true (String.◌∷◌ c s) st = run false s (push c st)
run false (String.◌∷◌ c s) st = run (is_quote c) s (step (code c) st)

abbrev pub write_number : ℕ → String → String
write_number zero t = String.◌∷◌ "0" t
write_number (suc n) t = write_number n (String.◌∷◌ "S" t)

abbrev pub write_text : String → String → String
write_text String.[] t = String.◌∷◌ "\"" t
write_text (String.◌∷◌ c s) t = write_text s (String.◌∷◌ "c" (String.◌∷◌ c t))

run-write_number :
    (n : ℕ) (t : String) (st : Stack) → run false (write_number n t) st ≡ run false t (number n st)
unfolding run
run-write_number zero t st = refl
run-write_number (suc n) t st = run-write_number n (String.◌∷◌ "S" t) st

run-write_text :
    (s t : String) (st : Stack) → run false (write_text s t) st ≡ run false t (text s st)
unfolding run
run-write_text String.[] t st = refl
run-write_text (String.◌∷◌ c s) t st = run-write_text s (String.◌∷◌ "c" (String.◌∷◌ c t)) st

unfoldable mutual
  pub write : Json → String → String
  write null t = String.◌∷◌ "n" t
  write (boolean true) t = String.◌∷◌ "t" t
  write (boolean false) t = String.◌∷◌ "f" t
  write (integer (pos n)) t = write_number n (String.◌∷◌ "+" t)
  write (integer (negsuc n)) t = write_number n (String.◌∷◌ "-" t)
  write (real s) t = write_text s (String.◌∷◌ "r" t)
  write (string s) t = write_text s (String.◌∷◌ "s" t)
  write (array is) t = write_items is (String.◌∷◌ "]" t)
  write (object fs) t = write_fields fs (String.◌∷◌ "}" t)

  pub write_items : Items → String → String
  write_items nil t = String.◌∷◌ "[" t
  write_items (item j is) t = write_items is (write j (String.◌∷◌ "," t))

  pub write_fields : Fields → String → String
  write_fields end t = String.◌∷◌ "{" t
  write_fields (field key j fs) t = write_fields fs (write_text key (write j (String.◌∷◌ ":" t)))

mutual
  unfolding run write

  run-write :
      (j : Json) (t : String) (st : Stack) → run false (write j t) st ≡ run false t (value j st)
  run-write null t st = refl
  run-write (boolean true) t st = refl
  run-write (boolean false) t st = refl
  run-write (integer (pos n)) t st = run-write_number n (String.◌∷◌ "+" t) st
  run-write (integer (negsuc n)) t st = run-write_number n (String.◌∷◌ "-" t) st
  run-write (real s) t st = run-write_text s (String.◌∷◌ "r" t) st
  run-write (string s) t st = run-write_text s (String.◌∷◌ "s" t) st
  run-write (array is) t st = run-write_items is (String.◌∷◌ "]" t) st
  run-write (object fs) t st = run-write_fields fs (String.◌∷◌ "}" t) st

  run-write_items :
      (is : Items) (t : String) (st : Stack)
      → run false (write_items is t) st ≡ run false t (items is st)
  run-write_items nil t st = refl
  run-write_items (item j is) t st =
      run-write_items is (write j (String.◌∷◌ "," t)) st
      ∙ run-write j (String.◌∷◌ "," t) (items is st)

  run-write_fields :
      (fs : Fields) (t : String) (st : Stack)
      → run false (write_fields fs t) st ≡ run false t (fields fs st)
  run-write_fields end t st = refl
  run-write_fields (field key j fs) t st =
      run-write_fields fs (write_text key (write j (String.◌∷◌ ":" t))) st
      ∙ run-write_text key (write j (String.◌∷◌ ":" t)) (fields fs st)
      ∙ run-write j (String.◌∷◌ ":" t) (text key (fields fs st))

abbrev pub top : Stack → Json
top (value j st) = j
top _ = null

-- the text of a value, and the value of a text
unfoldable pub text_of : Json → String
unfolding write
text_of j = write j String.[]

unfoldable pub value_of : String → Json
unfolding run
value_of s = top (run false s bottom)

pub value_of-text_of : (j : Json) → value_of (text_of j) ≡ j
unfolding value_of text_of
value_of-text_of j = ap top (run-write j String.[] bottom)
