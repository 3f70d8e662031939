-- ===== src/Trie/Laws.antt =====
-- A trie as a map from keys to entries: reading after writing.
use epoll_chat.Common.{◌≡◌, refl, [], ◌∷◌, Text, if◌then◌else◌, text_eq, arith}
use epoll_chat.Trie.{Trie, null, node, new_node, find_node, modify_node, entry}

module _ {ℓ} {A : Type ℓ} (d : A) where
  pub entry-new_node : (s : Text) → entry d (find_node (new_node d) s) ≡ d
  unfolding new_node find_node
  entry-new_node [] = refl
  entry-new_node (c ∷ s) = refl

  module _ (g : A → A) where
    -- The entry at `s` becomes `g` of what it was; every other key keeps its entry.
    pub entry-modify_node :
        (s k : Text) (t : Trie A)
        → entry d (find_node (modify_node d g s t) k)
          ≡ (if text_eq s k then g (entry d (find_node t s)) else entry d (find_node t k))
    unfolding find_node modify_node
    entry-modify_node [] [] null = refl
    entry-modify_node [] [] (node a child) = refl
    entry-modify_node [] (c ∷ k) null = refl
    entry-modify_node [] (c ∷ k) (node a child) = refl
    entry-modify_node (c ∷ s) [] null = refl
    entry-modify_node (c ∷ s) [] (node a child) = refl
    entry-modify_node (c ∷ s) (e ∷ k) null = ground (arith, entry-modify_node s k null)
    entry-modify_node (c ∷ s) (e ∷ k) (node a child) =
        ground (arith, entry-modify_node s k (child c))
