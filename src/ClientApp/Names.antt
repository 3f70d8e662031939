-- ===== src/ClientApp/Names.antt =====
-- Which paths name the same file, for fopen, stat and mkdir: a path from the working directory or from
-- the root, name by name, where ".." goes back by one name. The file system is without links.
use epoll_chat.Common.{
  ℕ, ◌+◌, ◌/◌, ◌%◌, ◌<◌, ◌≡◌, refl, sym, ap, ◌∙◌, Bool, true, false, ◌&&◌, ◌||◌, not, List, [], ◌∷◌,
  ◌++◌, Text, if◌then◌else◌, ◌==◌, contains, text_eq, text_eq_refl, codes, append_assoc, append-nil,
  ap₂, arith, Bool-cases, inl, inr, zero, suc, decimal, digits_before, length, ◌≤◌,
}

-- The names that lead from the root to a file, the last one first.
unfoldable enter : Text → List Text → List Text
enter name at =
    if text_eq name [] || text_eq name (codes ".")
    then at
    else if text_eq name (codes "..")
    then elim at [ [] ↦ [] | parent ∷ rest ↦ rest ]
    else name ∷ at

unfoldable walk : List Text → Text → Text → List Text
unfolding enter
walk at name [] = enter name at
walk at name (c ∷ s) = if c == b'/' then walk (enter name at) [] s else walk at (name ++ (c ∷ [])) s

-- A path that does not start at the root goes on from the working directory.
abbrev full_path : Text → Text → Text
full_path cwd [] = cwd
full_path cwd (c ∷ s) = if c == b'/' then c ∷ s else cwd ++ (b'/' ∷ c ∷ s)

abbrev names_of : Text → Text → List Text
names_of cwd path = walk [] [] (full_path cwd path)

abbrev names_eq : List Text → List Text → Bool
names_eq [] [] = true
names_eq [] (y ∷ ys) = false
names_eq (x ∷ xs) [] = false
names_eq (x ∷ xs) (y ∷ ys) = text_eq x y && names_eq xs ys

unfoldable pub same_path : Text → Text → Text → Bool
unfolding walk
same_path cwd p q = names_eq (names_of cwd p) (names_of cwd q)

names_eq_refl : (xs : List Text) → names_eq xs xs ≡ true
names_eq_refl [] = refl
names_eq_refl (x ∷ xs) = ground (arith, text_eq_refl x, names_eq_refl xs)

pub same_path_refl : (cwd p : Text) → same_path cwd p p ≡ true
unfolding same_path
same_path_refl cwd p = names_eq_refl (names_of cwd p)

-- A name of a directory entry: it has no slash, and is not empty, "." or "..".
abbrev pub is_name : Text → Bool
is_name s =
    not (contains s b'/') && not ((text_eq s [] || text_eq s (codes ".")) || text_eq s (codes ".."))

walk-append :
    (at : List Text) (name xs ys : Text)
    → walk at name (xs ++ (b'/' ∷ ys)) ≡ walk (walk at name xs) [] ys
unfolding walk
walk-append at name [] ys = refl
walk-append at name (x ∷ xs) ys = elim (Bool-cases (x == b'/')) [
  | inl e ↦ rw e (walk-append (enter name at) [] xs ys)
  | inr e ↦ rw e (walk-append at (name ++ (x ∷ [])) xs ys)
]

walk_last :
    (at : List Text) (name y : Text)
    → contains y b'/' ≡ false
    → walk at name y ≡ enter (name ++ y) at
unfolding walk
walk_last at name [] h = ap (λ s. enter s at) (sym (append-nil name))
walk_last at name (c ∷ y) h = elim (Bool-cases (c == b'/')) [
  | inl e ↦ absurd (ground arith)
  | inr e ↦ rw e (
      walk_last at (name ++ (c ∷ [])) y (ground arith)
      ∙ ap (λ s. enter s at) (append_assoc name (c ∷ []) y))
]

enter_name : (at : List Text) (y : Text) → is_name y ≡ true → enter y at ≡ y ∷ at
unfolding enter
enter_name at y h = ground arith

walk_name : (at : List Text) (y : Text) → is_name y ≡ true → walk at [] y ≡ y ∷ at
walk_name at y h = walk_last at [] y (ground arith) ∙ enter_name at y h

-- Where a directory's path starts.
abbrev start_of : Text → Text → Text
start_of cwd [] = []
start_of cwd (c ∷ s) = if c == b'/' then c ∷ s else cwd ++ (b'/' ∷ c ∷ s)

full_path-append : (cwd d x : Text) → full_path cwd (d ++ (b'/' ∷ x)) ≡ start_of cwd d ++ (b'/' ∷ x)
full_path-append cwd [] x = refl
full_path-append cwd (c ∷ s) x = elim (Bool-cases (c == b'/')) [
  | inl e ↦ rw e refl
  | inr e ↦ rw e (sym (append_assoc cwd (b'/' ∷ c ∷ s) (b'/' ∷ x)))
]

-- The names of what is in a directory: those of the directory, and its own.
names_in :
    (cwd d y : Text)
    → is_name y ≡ true
    → names_of cwd (d ++ (b'/' ∷ y)) ≡ y ∷ walk [] [] (start_of cwd d)
names_in cwd d y h =
    ap (walk [] []) (full_path-append cwd d y)
    ∙ (walk-append [] [] (start_of cwd d) y ∙ walk_name (walk [] [] (start_of cwd d)) y h)

start_of-append :
    (cwd d x : Text)
    → walk [] [] (start_of cwd (d ++ (b'/' ∷ x))) ≡ walk [] [] (full_path cwd (d ++ (b'/' ∷ x)))
start_of-append cwd [] x = refl
start_of-append cwd (c ∷ s) x = refl

-- Two entries of one directory are the same file exactly if their names are the same.
pub same_path-names :
    (cwd d x y : Text)
    → is_name x ≡ true
    → is_name y ≡ true
    → same_path cwd (d ++ (b'/' ∷ x)) (d ++ (b'/' ∷ y)) ≡ text_eq x y
unfolding same_path
same_path-names cwd d x y h k =
    ap₂ names_eq (names_in cwd d x h) (names_in cwd d y k)
    ∙ ground (arith, names_eq_refl (walk [] [] (start_of cwd d)))

names_two :
    (cwd d f x : Text)
    → is_name f ≡ true
    → is_name x ≡ true
    → names_of cwd ((d ++ (b'/' ∷ f)) ++ (b'/' ∷ x)) ≡ x ∷ f ∷ walk [] [] (start_of cwd d)
names_two cwd d f x h k =
    names_in cwd (d ++ (b'/' ∷ f)) x k
    ∙ ap (λ at. x ∷ at) (start_of-append cwd d f ∙ names_in cwd d f h)

-- And two that are in entries of it, exactly if both names are.
pub same_path-two :
    (cwd d f g x y : Text)
    → is_name f ≡ true
    → is_name g ≡ true
    → is_name x ≡ true
    → is_name y ≡ true
    → same_path cwd ((d ++ (b'/' ∷ f)) ++ (b'/' ∷ x)) ((d ++ (b'/' ∷ g)) ++ (b'/' ∷ y))
      ≡ (text_eq f g && text_eq x y)
unfolding same_path
same_path-two cwd d f g x y hf hg hx hy =
    ap₂ names_eq (names_two cwd d f x hf hx) (names_two cwd d g y hg hy)
    ∙ ground (arith, names_eq_refl (walk [] [] (start_of cwd d)))

names_eq_longer : (x : Text) (xs : List Text) → names_eq (x ∷ xs) xs ≡ false
names_eq_longer x [] = refl
names_eq_longer x (y ∷ ys) = ground (arith, names_eq_longer y ys)

-- An entry of an entry is no entry.
pub same_path_deeper :
    (cwd d f g x : Text)
    → is_name f ≡ true
    → is_name g ≡ true
    → is_name x ≡ true
    → same_path cwd ((d ++ (b'/' ∷ g)) ++ (b'/' ∷ x)) (d ++ (b'/' ∷ f)) ≡ false
unfolding same_path
same_path_deeper cwd d f g x hf hg hx =
    ap₂ names_eq (names_two cwd d g x hg hx) (names_in cwd d f hf)
    ∙ ground (arith, names_eq_longer g (walk [] [] (start_of cwd d)))

-- A number that is printed is a name.
no_byte :
    (f n : ℕ) (acc : Text) (c : ℕ)
    → c < b'0'
    → contains acc c ≡ false
    → contains (digits_before f n acc) c ≡ false
unfolding digits_before
no_byte zero n acc c l h = h
no_byte (suc f) n acc c l h = ground (arith, no_byte f (n / 10) ((b'0' + n % 10) ∷ acc) c l)

pub decimal_byte : (n c : ℕ) → c < b'0' → contains (decimal n) c ≡ false
unfolding decimal
decimal_byte n c l = no_byte 20 n [] c l refl

length-digits_before : (f n : ℕ) (acc : Text) → length (digits_before f n acc) ≤ f + length acc
unfolding digits_before
length-digits_before zero n acc = omega arith
length-digits_before (suc f) n acc =
    ground (arith, length-digits_before f (n / 10) ((b'0' + n % 10) ∷ acc))

pub length-decimal : (n : ℕ) → length (decimal n) ≤ 20
unfolding decimal
length-decimal n = length-digits_before 20 n []

some_digits : (f n : ℕ) (c : ℕ) (acc : Text) → text_eq (digits_before f n (c ∷ acc)) [] ≡ false
unfolding digits_before
some_digits zero n c acc = refl
some_digits (suc f) n c acc = ground (arith, some_digits f (n / 10) (b'0' + n % 10) (c ∷ acc))

without_dot :
    (s : Text)
    → contains s b'/' ≡ false
    → contains s b'.' ≡ false
    → text_eq s [] ≡ false
    → is_name s ≡ true
without_dot [] h k e = absurd (ground arith)
without_dot (c ∷ s) h k e = ground arith

pub decimal-name : (n : ℕ) → is_name (decimal n) ≡ true
unfolding decimal digits_before
decimal-name n =
    without_dot (decimal n) (no_byte 20 n [] b'/' (omega arith) refl)
      (no_byte 20 n [] b'.' (omega arith) refl)
      (ground (arith, some_digits 19 (n / 10) (b'0' + n % 10) []))
