-- ===== src/Dynamic/Manager/Messages.antt =====
-- `dispatchMessage` and `SendMsg` of `CDataManager` (include/frame/dynamic_create.h).
use qth_frame.Base.{
  ℕ, ◌<◌, ◌%◌, ◌≡◌, refl, subst, true, Option, none, some, List, ltb, arith, ℤ, Option-cases, inl,
  inr,
}
use native.Mathlib.Nat.{mod-lt}
use qth_frame.Dynamic.{Kind, RunTimeClass, ModuleEvent, max_message_num}
use qth_frame.Dynamic.Manager.{
  mec_module_not_find, mec_module_not_deal_msg, mec_module_msg_not_register, SendMethor,
  send_by_client, Module, Parameters, DataManager, construct, get_module_by_id, send_msg,
  dispatch_message,
}
use qth_frame.Dynamic.Manager.Table.{kind_of, first_kind, construct-place}

module _ {D W : Type 0} (call : ℕ → ℕ → D → SendMethor → W → ℤ × W) where
  -- The answer of object `k` of a module of this kind.
  abbrev pub answer_of : Kind → ℕ → ℕ → D → SendMethor → W → Option (ℤ × W)
  answer_of kind k msg d by w = elim kind.message_map [
    | none ↦ some (mec_module_not_deal_msg, w)
    | some map ↦ elim (map msg) [
      | none ↦ some (mec_module_msg_not_register, w)
      | some f ↦ some (call k f d by w)
    ]
  ]

  -- The answer of a manager whose module for the message is of this kind.
  abbrev pub Replies : Option Kind → ℕ → D → W → Option (ℤ × W) → Type 0
  Replies none msg d w r = r ≡ some (mec_module_not_find, w)
  Replies (some kind) msg d w r = (k : ℕ) × (r ≡ answer_of kind k msg d send_by_client w)

  pub send_msg-answer :
      (z : Parameters) (msg : ℕ) (d : D) (by : SendMethor) (o : Module) (w : W)
      → msg < max_message_num
      → send_msg z call msg d by o w ≡ answer_of o.kind o.object msg d by w
  unfolding send_msg
  send_msg-answer z msg d by o w h =
      let t : ltb msg max_message_num ≡ true = ground arith in
      elim (Option-cases o.kind.message_map) [
        | inl e ↦ rw (send_msg, e) refl
        | inr (map, e) ↦ rw (send_msg, e, t) refl
      ]

  Replies-place :
      (z : Parameters) (o : Option Module) (i msg : ℕ) (d : D) (m : DataManager) (w : W)
      → msg < max_message_num
      → m.modules (i % z.module_num) ≡ o
      → Replies (kind_of o) msg d w (dispatch_message z call i msg d m w)
  unfolding dispatch_message get_module_by_id
  Replies-place z none i msg d m w h e = rw (dispatch_message, get_module_by_id, e) refl
  Replies-place z (some o) i msg d m w h e = (
    o.object,
    rw (dispatch_message, get_module_by_id, e) (send_msg-answer z msg d send_by_client o w h),
  )

  -- With places for some module and a message below 255, `dispatchMessage` on a manager that its
  -- constructor made goes to what the first class makes of those whose number is the asked one
  -- modulo the number of places: it answers -2 if there is no such class, -4 if its objects have no
  -- message map, -5 if the map has no handler, and else what the handler of the module answers.
  pub dispatch_message-Replies :
      (z : Parameters) (sort : List ModuleEvent → List ModuleEvent) (cs : List RunTimeClass)
      (i msg : ℕ) (d : D) (w : W)
      → 0 < z.module_num
      → msg < max_message_num
      → Replies
          (first_kind (i % z.module_num) cs)
          msg
          d
          w
          (dispatch_message z call i msg d (construct z sort cs) w)
  dispatch_message-Replies z sort cs i msg d w p h =
      subst (λ k. Replies k msg d w (dispatch_message z call i msg d (construct z sort cs) w))
        (construct-place z sort cs (i % z.module_num) (mod-lt i p))
        (Replies-place z _ i msg d (construct z sort cs) w h refl)
