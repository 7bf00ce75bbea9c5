-- ===== src/Submitting/Linking.antt =====
-- The copy of a chain of messages by `start_link_send` of hds_udp/connection/HDS_UDP_Connection.cpp.
use test_resend.Prelude.{ℕ, ◌+◌, ◌<◌, ◌≡◌, List, [], ◌∷◌, ◌++◌, length}
use test_resend.Prelude.Words.{u32}
use test_resend.Submitting.{MessageNode, LinkCopy, no_memory, null_write, copied, chain_bytes}

-- The lengths that the nodes name, added up.
unfoldable pub chain_size : List MessageNode → ℕ
chain_size [] = 0
chain_size (n ∷ rest) = n.source_data_length + chain_size rest

-- What the loop ends with, after the copies that are done: for a chain it has the bytes of the chain and
-- the total within 32 bits; without memory a part of the copies is left behind; the null pointer is that
-- of an empty chain.
abbrev pub Linked : List MessageNode → List MessageNode → ℕ → LinkCopy → Type 0
Linked done nodes total (copied cs t) =
    (chain_bytes cs ≡ chain_bytes done ++ chain_bytes nodes) × (t ≡ u32 (total + chain_size nodes))
Linked done nodes total (no_memory behind) = length behind < length done + length nodes
Linked done nodes total null_write = done ++ nodes ≡ []
