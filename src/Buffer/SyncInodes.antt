-- ===== src/Buffer/SyncInodes.antt =====
-- The second loop of handle_sync: it writes the dirty inodes of the cache to their blocks, and these to
-- the disk.
use model_lib.Prelude.{
  ℕ, zero, suc, ◌≤◌, ◌<◌, ◌≡◌, refl, sym, ap, ◌∙◌, ◌≢◌, inl, inr, some, Bool-cases, List, [], ◌∷◌,
  Bool, true, false, ◌==◌, ◌&&◌, if◌then◌else◌, arith, length,
}
use native.Mathlib.Decide.{ℕ_discrete}
use model_lib.Env.{Env, Bytes, Ptr, null, Inode, IsLayout}
use model_lib.Queue.{load}
use model_lib.Queue.Seg.{Cell, item, Seg}
use model_lib.Queue.Moves.{load-some}
use model_lib.Cache.{on_queue}
use model_lib.Cache.Cells.{find, Unique}
use model_lib.Machine.{Sys, M, Run, ok, on_inodes, when, ◌>>=◌, ◌>>◌}
use model_lib.Buffer.{inode_block, sync_inode, sync_inodes}
use model_lib.Buffer.Evict.{content}
use model_lib.Buffer.Blocks.{get_b-Got}
use model_lib.Buffer.Table.{
  inode_at, inode_at_self, inode_at_other, inode_block_mono, length-written,
}
use model_lib.Buffer.Inodes.{in_table}
use model_lib.Buffer.FlushInode.{OnDisk, Flush, Got-Flush}

module _ ⦃env : Env⦄ where
  -- an inode behind the writes of the dirty ones of the list
  abbrev pub flushed : List (Cell Inode) → ℕ → Inode → Inode
  flushed [] i inode = inode
  flushed (c ∷ cs) i inode = flushed cs i (if c.dirty && (c.num == i) then c.addr else inode)

  module _ (layout : IsLayout env) (last : ℕ) (table : inode_block last < env.num_sectors)
      (pos : 0 < env.block_cache_size) where
    -- a step that wrote the dirty inodes of the list
    pub record Flushed (s : Sys) (bs : List (Cell Bytes)) (cs : List (Cell Inode))
        (run : Run (Unit {0})) : Type 0 where
      pub state : Sys
      pub cells : List (Cell Bytes)
      pub returns : run ≡ ok tt state
      pub valid : OnDisk state cells
      pub inodes :
          (i : ℕ)
          → i ≤ last
          → inode_at (content cells state.disk) i ≡ flushed cs i (inode_at (content bs s.disk) i)
      pub blocks :
          (b : ℕ)
          → inode_block last < b
          → b < env.num_sectors
          → content cells state.disk b ≡ content bs s.disk b
      pub others : state ≡ record s { blocks = state.blocks; disk = state.disk }

    abbrev Known : List (Cell Inode) → Type 0
    Known cs = (i : ℕ) (c : Cell Inode) → find cs i ≡ some c → (i ≤ last) × (env.fits c.addr ≡ true)

    Flush-after :
        (s : Sys) (bs : List (Cell Bytes)) (x : Cell Inode) (cs : List (Cell Inode))
        (f : Flush s bs x) (run : Run (Unit {0}))
        → OnDisk s bs
        → x.num ≤ last
        → env.fits x.addr ≡ true
        → x.dirty ≡ true
        → (OnDisk f.state f.cells → Flushed f.state f.cells cs run)
        → Flushed s bs (x ∷ cs) run
    Flush-after s bs x cs f run v le ok_x dirty go =
        let view = content bs s.disk in
        let view₁ = content f.cells f.state.disk in
        let lt = in_table layout last table pos x.num le in
        let rest = go (record {
          cache = f.cache;
          fits = f.fits;
          sized =
              λ b b_lt. length-written layout view view₁ x.num x.addr f.written v.sized b lt b_lt;
          synced = f.synced;
        }) in
        record {
          state = rest.state;
          cells = rest.cells;
          returns = rest.returns;
          valid = rest.valid;
          inodes = λ i i_le. rest.inodes i i_le ∙ elim (ℕ_discrete x.num i) [
            | yes self ↦
                let here : (x.num == i) ≡ true = ground arith in
                let now = inode_at_self layout view view₁ x.num x.addr f.written v.sized lt ok_x in
                rw (dirty, here) (ap (flushed cs i) (ap (inode_at view₁) (sym self) ∙ now))
            | no other ↦
                let there : (x.num == i) ≡ false = ground arith in
                rw (dirty, there)
                  (ap (flushed cs i) (
                    inode_at_other layout view view₁ x.num x.addr f.written v.sized i lt
                      (in_table layout last table pos i i_le) other))
          ];
          blocks = λ b behind b_lt.
              let order = inode_block_mono layout x.num last le in
              let apart : (inode_block x.num == b) ≡ false = ground arith in
              rest.blocks b behind b_lt ∙ f.written b b_lt ∙ rw apart refl;
          others =
              rest.others
              ∙ ap {A = Sys} (λ z. record z { blocks = rest.state.blocks; disk = rest.state.disk })
                  f.others;
        }

    load_i-item :
        (prev next : Ptr) (c : Cell Inode) (s : Sys)
        → c.at ≢ null
        → s.inodes.queue.heap c.at ≡ some (item c prev next)
        → on_inodes (on_queue (load c.at)) s ≡ ok (item c prev next) s
    unfolding on_inodes
    load_i-item prev next c s ne h =
        rw (load-some c.at s.inodes.queue (item c prev next) ne h, on_inodes, on_queue)

    when-true :
        (b : Bool) (m : M (Unit {0})) (s s' : Sys)
        → b ≡ true
        → m s ≡ ok tt s'
        → when b m s ≡ ok tt s'
    when-true b m s s' e h = rw e h

    when-false : (b : Bool) (m : M (Unit {0})) (s : Sys) → b ≡ false → when b m s ≡ ok tt s
    when-false b m s e = rw e refl

    sync_inodes-step :
        (fuel : ℕ) (prev p next : Ptr) (c : Cell Inode) (s s' : Sys)
        → p ≡ c.at
        → c.at ≢ null
        → s.inodes.queue.heap c.at ≡ some (item c prev next)
        → when c.dirty (sync_inode c.num c.addr) s ≡ ok tt s'
        → sync_inodes (suc fuel) p s ≡ sync_inodes fuel next s'
    unfolding sync_inodes
    sync_inodes-step fuel prev p next c s s' here ne h wrote =
        let some_p : (c.at == null) ≡ false = ground arith in
        rw (here, some_p, load_i-item prev next c s ne h, wrote, ◌>>=◌, ◌>>◌) refl

    clean-after :
        (s : Sys) (bs : List (Cell Bytes)) (c : Cell Inode) (cs : List (Cell Inode))
        (run : Run (Unit {0}))
        → c.dirty ≡ false
        → Flushed s bs cs run
        → Flushed s bs (c ∷ cs) run
    clean-after s bs c cs run clean rest = record {
      state = rest.state;
      cells = rest.cells;
      returns = rest.returns;
      valid = rest.valid;
      inodes = λ i le. rest.inodes i le ∙ rw clean refl;
      blocks = rest.blocks;
      others = rest.others;
    }

    pub sync_inodes-Flushed :
        (fuel : ℕ) (cs : List (Cell Inode)) (prev p end : Ptr) (s : Sys) (bs : List (Cell Bytes))
        → OnDisk s bs
        → Known cs
        → Unique cs
        → Seg s.inodes.queue.heap prev p cs null end
        → length cs < fuel
        → Flushed s bs cs (sync_inodes fuel p s)
    unfolding sync_inodes
    sync_inodes-Flushed zero cs prev p end s bs v known u seg lt = absurd (omega (arith, lt))
    sync_inodes-Flushed (suc fuel) [] prev p end s bs v known u seg lt = record {
      state = s;
      cells = bs;
      returns = rw seg.0 refl;
      valid = v;
      inodes = λ i le. refl;
      blocks = λ b behind b_lt. refl;
      others = refl;
    }
    sync_inodes-Flushed (suc fuel) (c ∷ cs) prev p end s bs v known u seg lt =
        let some_p : (c.at == null) ≡ false = let ne = seg.1 in ground arith in
        let (le, ok_c) = known c.num c (ground arith) in
        let rest_known : Known cs = λ i d found. known i d (ground (arith, u.0)) in
        let rest_seg = seg.4 in
        elim (Bool-cases c.dirty) [
          | inl dirty ↦
              let f =
                Got-Flush layout last table pos s bs _ c v le
                  (get_b-Got s bs (inode_block c.num) v.cache v.fits pos) in
              let same_inodes : f.state.inodes ≡ s.inodes = ap {A = Sys} (λ z. z.inodes) f.others in
              let step =
                sync_inodes-step fuel prev p seg.2 c s f.state seg.0 seg.1 seg.3
                  (when-true c.dirty (sync_inode c.num c.addr) s f.state dirty f.returns) in
              rw step (
                Flush-after s bs c cs f _ v le ok_c dirty λ w.
                  sync_inodes-Flushed fuel cs c.at seg.2 end f.state f.cells w rest_known u.1
                    (rw same_inodes rest_seg) (omega (arith, lt)))
          | inr clean ↦
              let step =
                sync_inodes-step fuel prev p seg.2 c s s seg.0 seg.1 seg.3
                  (when-false c.dirty (sync_inode c.num c.addr) s clean) in
              rw step (
                clean-after s bs c cs _ clean (
                  sync_inodes-Flushed fuel cs c.at seg.2 end s bs v rest_known u.1 rest_seg
                    (omega (arith, lt))))
        ]
