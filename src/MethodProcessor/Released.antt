-- ===== src/MethodProcessor/Released.antt =====
-- What becomes of a message that a worker thread of
-- hds_udp/method_processor/HDS_UDP_Method_Processor.cpp takes.
use test_resend.Prelude.{
  ℕ, ◌≡◌, refl, ap, ◌∙◌, if◌then◌else◌, Bool, true, false, List, [], ◌∷◌, Option, none, some,
}
use test_resend.Wire.{get_word}
use test_resend.HpMap.{Root}
use test_resend.HpMap.Entries.{entries, lookup, find_node_lem, insert_entry}
use test_resend.HpMap.Insert.Descent.{absent}
use test_resend.RecvWaitQueue.{map_insert, waiting_insert}
use test_resend.RecvWaitQueue.Refine.{Answers, insert-Answers, kept, lookup-insert_entry}
use test_resend.HpMap.Refine.{IsValid}
use test_resend.Starting.{
  RecvBufType, pool_space, malloc_space_del, malloc_space_no_del, user_space_del, user_space_no_del,
}
use test_resend.MethodProcessor.{
  ProcessData, WorkCall, process, release_buffer, type_key, give_back, registe_method,
  method_processor, query_separate_recv_buf,
}

-- A round on a message for which a method is registered.
abbrev pub round_of : (ℕ → RecvBufType → RecvBufType) → ℕ → ProcessData → List WorkCall
round_of change proc d = process proc d ∷ give_back (record d { buf_type = change proc d.buf_type })

processed :
    (change : ℕ → RecvBufType → RecvBufType) (methods : Root ℕ) (d : ProcessData) (proc : ℕ)
    → IsValid methods
    → lookup (type_key (get_word 0 d.bytes)) (entries methods.rb_node) ≡ some proc
    → method_processor change methods d ≡ round_of change proc d
unfolding method_processor
processed change methods d proc h e =
    let key = type_key (get_word 0 d.bytes) in
    rw (find_node_lem key methods.rb_node h.sorted, e, method_processor) refl

-- A registration that returns, and every message of the type from then on.
abbrev pub Registered : ℕ → ℕ → Root ℕ → Option (Bool × Root ℕ) → Type 0
Registered msg_type proc methods none = true ≡ false
Registered msg_type proc methods (some (new, after)) =
    let old = lookup (type_key msg_type) (entries methods.rb_node) in
    (new ≡ absent old)
    × IsValid after
    × ((change : ℕ → RecvBufType → RecvBufType) (d : ProcessData)
        → get_word 0 d.bytes ≡ msg_type
        → method_processor change after d ≡ round_of change (kept proc old) d)

answered :
    (msg_type proc : ℕ) (methods : Root ℕ) (o : Option (Bool × Root ℕ))
    → IsValid methods
    → Answers
        (absent (lookup (type_key msg_type) (entries methods.rb_node)))
        (insert_entry (type_key msg_type) proc (entries methods.rb_node))
        o
    → Registered msg_type proc methods o
answered msg_type proc methods none h p = p
answered msg_type proc methods (some (new, after)) h p =
    let m = entries methods.rb_node in
    (
      p.0,
      p.2,
      λ change d e. processed change after d (kept proc (lookup (type_key msg_type) m)) p.2 (
          ap (λ t. lookup (type_key t) (entries after.rb_node)) e
          ∙ ap (lookup (type_key msg_type)) p.1
          ∙ lookup-insert_entry (type_key msg_type) proc m h.sorted),
    )

-- On a valid table of methods, and with a node for it, a registration returns whether the type was free, and
-- from then on every message of the type is processed once, by the method that was registered first, before
-- its buffer is given back.
pub registe_method_lem :
    (msg_type proc : ℕ) (methods : Root ℕ)
    → IsValid methods
    → Registered msg_type proc methods (registe_method true msg_type proc methods)
unfolding registe_method waiting_insert
registe_method_lem msg_type proc methods h =
    answered msg_type proc methods (map_insert true (type_key msg_type) proc methods) h
      (insert-Answers true (type_key msg_type) proc methods h)

-- A method that asks for its buffer with `query_separate_recv_buf` owns it exactly when the call returns 0:
-- the round then gives nothing back, and otherwise it gives the buffer back to the pool once.
separated_lem :
    (d : ProcessData)
    → give_back (record d { buf_type = (query_separate_recv_buf d.buf_type).1 }) ≡ (
        if (query_separate_recv_buf d.buf_type).0
        then []
        else release_buffer d.buf d.data_length ∷ [])
unfolding give_back
separated_lem d = by_type d.buf_type
  where
    by_type :
        (t : RecvBufType)
        → give_back (record d { buf_type = (query_separate_recv_buf t).1 })
          ≡ (if (query_separate_recv_buf t).0 then [] else release_buffer d.buf d.data_length ∷ [])
    by_type pool_space = refl
    by_type malloc_space_del = refl
    by_type malloc_space_no_del = refl
    by_type user_space_del = refl
    by_type user_space_no_del = refl
