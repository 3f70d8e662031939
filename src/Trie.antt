-- ===== src/Trie.antt =====
-- The tries of lib/auth.h (trie_user) and lib/file.h (trie_file): a node holds its entry and
-- `child[256]`, an array of pointers indexed by the next byte of the key.
pub mod Laws
use epoll_chat.Common.{ℕ, List, [], ◌∷◌, Text, Option, none, some, ◌==◌, if◌then◌else◌, update}

-- `null` is the NULL pointer.
pub data Trie {ℓ} (A : Type ℓ) : Type ℓ where
  null : Trie A
  node : A → (ℕ → Trie A) → Trie A

module _ {ℓ} {A : Type ℓ} where
  -- newTrieUserNode, newTrieFileNode: `d` is the entry of a new node
  unfoldable pub new_node : A → Trie A
  new_node d = node d (λ k. null)

  -- The walks of findUser and findFile down to the last byte of the key.
  unfoldable pub find_node : Trie A → Text → Option A
  find_node null s = none
  find_node (node a child) [] = some a
  find_node (node a child) (c ∷ s) = find_node (child c) s

  -- The walks of addUser and addFile, which make the nodes that are missing, and the write of the
  -- entry `g a` at the last node.
  unfoldable pub modify_node : A → (A → A) → Text → Trie A → Trie A
  modify_node d g [] null = node (g d) (λ k. null)
  modify_node d g [] (node a child) = node (g a) child
  modify_node d g (c ∷ s) null = node d (update (λ k. null) c (modify_node d g s null))
  modify_node d g (c ∷ s) (node a child) = node a (update child c (modify_node d g s (child c)))

-- The entry at a key, `d` where there is no node.
abbrev pub entry {ℓ} : {A : Type ℓ} → A → Option A → A
entry d none = d
entry d (some a) = a
