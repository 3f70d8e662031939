-- ===== src/ClientApp/Peers/Paths.antt =====
-- The paths of chunks.
use epoll_chat.Common.{
  ℕ, ◌<◌, ◌^◌, ◌≡◌, ap, sym, ◌∙◌, true, false, ◌&&◌, [], ◌++◌, Text, Option, none, some, text_eq,
  text_eq_iff, text_eq_refl, decimal, ◌==◌, arith, Bool-cases, inl, inr,
}
use epoll_chat.Common.Int.{pos_part}
use epoll_chat.Libc.{strtol, Number}
use epoll_chat.Libc.Decimal.{strtol-decimal}
use epoll_chat.ClientApp.{App, chunk_path, file_dir}
use epoll_chat.ClientApp.Names.{
  is_name, same_path, same_path-names, same_path-two, same_path_deeper, decimal-name,
}

abbrev value_read : Option Number → ℕ
value_read none = 0
value_read (some r) = pos_part r.value

-- Numbers that print alike are equal.
decimal-injective : (n m : ℕ) → n < 2 ^ 63 → m < 2 ^ 63 → decimal n ≡ decimal m → n ≡ m
decimal-injective n m h k e =
    ap value_read
      (sym (strtol-decimal n [] h tt) ∙ (ap (λ s. strtol (s ++ [])) e ∙ strtol-decimal m [] k tt))

text_eq-decimal : (n m : ℕ) → n < 2 ^ 63 → m < 2 ^ 63 → text_eq (decimal n) (decimal m) ≡ (n == m)
text_eq-decimal n m h k = elim (Bool-cases (text_eq (decimal n) (decimal m))) [
  | inl e ↦
      let same = decimal-injective n m h k ((text_eq_iff (decimal n) (decimal m)).0 e) in
      e ∙ ground arith
  | inr e ↦ elim (Bool-cases (n == m)) [
    | inl d ↦
        let same : n ≡ m = ground arith in
        absurd (
          ground (
            arith,
            e,
            sym (ap (λ q. text_eq (decimal n) (decimal q)) same) ∙ text_eq_refl (decimal n),
          ))
    | inr d ↦ e ∙ sym d
  ]
]

-- The paths of two chunks of files with names are the same file exactly when the names and the
-- numbers are.
pub same_path-chunks :
    (cwd : Text) (a : App) (f g : Text) (c d : ℕ)
    → is_name f ≡ true
    → is_name g ≡ true
    → c < 2 ^ 63
    → d < 2 ^ 63
    → same_path cwd (chunk_path a f c) (chunk_path a g d) ≡ (text_eq f g && (c == d))
same_path-chunks cwd a f g c d i j h k =
    same_path-two cwd a.datapath f g (decimal c) (decimal d) i j (decimal-name c) (decimal-name d)
    ∙ ap (λ b. text_eq f g && b) (text_eq-decimal c d h k)

-- Those of two chunks of one file, whatever its name is, exactly when the numbers are.
pub same_path-numbers :
    (cwd : Text) (a : App) (f : Text) (c d : ℕ)
    → c < 2 ^ 63
    → d < 2 ^ 63
    → same_path cwd (chunk_path a f c) (chunk_path a f d) ≡ (c == d)
same_path-numbers cwd a f c d h k =
    same_path-names cwd (file_dir a f) (decimal c) (decimal d) (decimal-name c) (decimal-name d)
    ∙ text_eq-decimal c d h k

-- A chunk is no directory of a file.
pub same_path-dir :
    (cwd : Text) (a : App) (f g : Text) (d : ℕ)
    → is_name f ≡ true
    → is_name g ≡ true
    → same_path cwd (chunk_path a g d) (file_dir a f) ≡ false
same_path-dir cwd a f g d i j = same_path_deeper cwd a.datapath f g (decimal d) i j (decimal-name d)
