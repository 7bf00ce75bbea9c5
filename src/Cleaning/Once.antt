-- ===== src/Cleaning/Once.antt =====
-- What the clean-up of hds_udp/connection/HDS_UDP_Connection.cpp calls, and how often.
use test_resend.Prelude.{
  ℕ, ◌≡◌, refl, ap, ◌∙◌, inl, inr, if◌then◌else◌, Bool, true, false, Bool-cases, List, [], ◌∷◌,
  ◌++◌, Option, none, some, Option-cases,
}
use test_resend.Connection.{TransResultCode}
use test_resend.Submitting.{MessageNode}
use test_resend.Cleaning.{
  CleanCall, call_handler, free_data, free_node, release_block, SentData, handled, deleted,
  clean_nodes, free_nodes, clean_single, writer_clean,
}

-- The calls of one kind among all, in their order: the handlers with their data, the data that is freed, and
-- the nodes that are freed.
abbrev pub handlers : List CleanCall → List (ℕ × ℕ)
handlers [] = []
handlers (call_handler handler source_data code ∷ calls) = (handler, source_data) ∷ handlers calls
handlers (_ ∷ calls) = handlers calls

abbrev pub data_freed : List CleanCall → List ℕ
data_freed [] = []
data_freed (free_data source_data ∷ calls) = source_data ∷ data_freed calls
data_freed (_ ∷ calls) = data_freed calls

abbrev pub blocks_released : List CleanCall → List ℕ
blocks_released [] = []
blocks_released (release_block block ∷ calls) = block ∷ blocks_released calls
blocks_released (_ ∷ calls) = blocks_released calls

abbrev pub nodes_freed : List CleanCall → List ℕ
nodes_freed [] = []
nodes_freed (free_node node ∷ calls) = node ∷ nodes_freed calls
nodes_freed (_ ∷ calls) = nodes_freed calls

-- What the chain asks for.
abbrev pub wanted_handlers : List MessageNode → List (ℕ × ℕ)
wanted_handlers [] = []
wanted_handlers (n ∷ rest) = elim n.send_handle [
  | none ↦ wanted_handlers rest
  | some handler ↦ (handler, n.source_data) ∷ wanted_handlers rest
]

abbrev pub wanted_frees : List MessageNode → List ℕ
wanted_frees [] = []
wanted_frees (n ∷ rest) = elim n.delete_after_send [
  | true ↦ n.source_data ∷ wanted_frees rest
  | false ↦ wanted_frees rest
]

abbrev pub addresses : List MessageNode → List ℕ
addresses [] = []
addresses (n ∷ rest) = n.node ∷ addresses rest

-- The calls of a node come before the others.
node_first :
    (code : TransResultCode) (handler : Option ℕ) (delete : Bool) (source : ℕ)
    (rest more : List CleanCall) (wh : List (ℕ × ℕ)) (wf wn : List ℕ)
    → handlers (rest ++ more) ≡ wh
    → data_freed (rest ++ more) ≡ wf
    → nodes_freed (rest ++ more) ≡ wn
    → blocks_released (rest ++ more) ≡ []
    → let all = (handled handler source code ++ deleted delete source ++ rest) ++ more in
      (handlers all ≡ (elim handler [ none ↦ wh | some h ↦ (h, source) ∷ wh ]))
      × (data_freed all ≡ (elim delete [ true ↦ source ∷ wf | false ↦ wf ]))
      × (nodes_freed all ≡ wn)
      × (blocks_released all ≡ [])
node_first code none true source rest more wh wf wn h f n b = (h, ap (λ m. source ∷ m) f, n, b)
node_first code none false source rest more wh wf wn h f n b = (h, f, n, b)
node_first code (some x) true source rest more wh wf wn h f n b =
    (ap (λ m. (x, source) ∷ m) h, ap (λ m. source ∷ m) f, n, b)
node_first code (some x) false source rest more wh wf wn h f n b =
    (ap (λ m. (x, source) ∷ m) h, f, n, b)

free_nodes_lem :
    (ns : List MessageNode)
    → (handlers (free_nodes ns) ≡ [])
      × (data_freed (free_nodes ns) ≡ [])
      × (nodes_freed (free_nodes ns) ≡ addresses ns)
      × (blocks_released (free_nodes ns) ≡ [])
unfolding free_nodes
free_nodes_lem [] = (refl, refl, refl, refl)
free_nodes_lem (n ∷ rest) = let h = free_nodes_lem rest in (h.0, h.1, ap (λ m. n.node ∷ m) h.2, h.3)

-- The calls of each kind are those that a chain asks for.
abbrev pub Asked : List MessageNode → List CleanCall → Type 0
Asked ns calls =
    (handlers calls ≡ wanted_handlers ns)
    × (data_freed calls ≡ wanted_frees ns)
    × (nodes_freed calls ≡ addresses ns)
    × (blocks_released calls ≡ [])

clean_nodes_lem :
    (code : TransResultCode) (ns : List MessageNode) (more : List CleanCall)
    → (handlers more ≡ [])
    → (data_freed more ≡ [])
    → (blocks_released more ≡ [])
    → (handlers (clean_nodes code ns ++ more) ≡ wanted_handlers ns)
      × (data_freed (clean_nodes code ns ++ more) ≡ wanted_frees ns)
      × (nodes_freed (clean_nodes code ns ++ more) ≡ nodes_freed more)
      × (blocks_released (clean_nodes code ns ++ more) ≡ [])
unfolding clean_nodes
clean_nodes_lem code [] more h g b = (h, g, refl, b)
clean_nodes_lem code (n ∷ rest) more h g b =
    let ih = clean_nodes_lem code rest more h g b in
    node_first code n.send_handle n.delete_after_send n.source_data (clean_nodes code rest) more
      (wanted_handlers rest) (wanted_frees rest) (nodes_freed more) ih.0 ih.1 ih.2 ih.3

-- What a message without a chain asks for: the call of its handler, and, where there is one and a release is
-- asked for, its ACE block, or its data when there is no block.
abbrev pub asked_block : SentData → List ℕ
asked_block s = elim s.ace_transmit_block [ none ↦ [] | some block ↦ block ∷ [] ]

abbrev pub asked_data : SentData → List ℕ
asked_data s = elim s.ace_transmit_block [ none ↦ s.transmit_buf ∷ [] | some block ↦ [] ]

abbrev pub AskedSingle : SentData → List CleanCall → Type 0
AskedSingle s calls =
    (handlers calls
      ≡ (elim s.sended_handle [ none ↦ [] | some handler ↦ (handler, s.transmit_buf) ∷ [] ]))
    × (data_freed calls ≡ (elim s.sended_handle [
      | none ↦ []
      | some handler ↦ if s.delete_after_send then asked_data s else []
    ]))
    × (blocks_released calls ≡ (elim s.sended_handle [
      | none ↦ []
      | some handler ↦ if s.delete_after_send then asked_block s else []
    ]))
    × (nodes_freed calls ≡ [])

clean_single_lem : (code : TransResultCode) (s : SentData) → AskedSingle s (clean_single code s)
unfolding clean_single
clean_single_lem code s = elim (Option-cases s.sended_handle) [
  | inl e ↦ rw (e, clean_single) (refl, refl, refl, refl)
  | inr (handler, e) ↦ elim (Option-cases s.ace_transmit_block) [
    | inl a ↦ elim (Bool-cases s.delete_after_send) [
      | inl d ↦ rw (e, a, d, clean_single) (refl, refl, refl, refl)
      | inr d ↦ rw (e, a, d, clean_single) (refl, refl, refl, refl)
    ]
    | inr (block, a) ↦ elim (Bool-cases s.delete_after_send) [
      | inl d ↦ rw (e, a, d, clean_single) (refl, refl, refl, refl)
      | inr d ↦ rw (e, a, d, clean_single) (refl, refl, refl, refl)
    ]
  ]
]

abbrev pub AskedOf : SentData → List MessageNode → List CleanCall → Type 0
AskedOf s [] calls = AskedSingle s calls
AskedOf s (n ∷ rest) calls = Asked (n ∷ rest) calls

chain_lem :
    (code : TransResultCode) (ns : List MessageNode)
    → Asked ns (clean_nodes code ns ++ free_nodes ns)
chain_lem code ns =
    let f = free_nodes_lem ns in
    let p = clean_nodes_lem code ns (free_nodes ns) f.0 f.1 f.3 in (p.0, p.1, p.2 ∙ f.2, p.3)

-- The clean-up of a writer with a chain calls the handler of every node that has one, with its data, frees
-- the data of exactly the nodes that ask for it, and every node, each once and in the order of the chain;
-- without a chain it calls the handler, and where there is a handler and a release is asked for it releases
-- the ACE block of the message, or frees the data when there is no block.
pub writer_clean_lem :
    (code : TransResultCode) (s : SentData) → AskedOf s s.trans_message_node (writer_clean code s)
unfolding writer_clean
writer_clean_lem code s = go s.trans_message_node refl
  where
    go :
        (ns : List MessageNode)
        → s.trans_message_node ≡ ns
        → AskedOf s s.trans_message_node (writer_clean code s)
    go [] e = rw (e, writer_clean) (clean_single_lem code s)
    go (n ∷ rest) e = rw (e, writer_clean) (chain_lem code (n ∷ rest))
