-- ===== src/IoLib/Transfer.antt =====
-- Read and Write in the client: the position of the open file.
use model_lib.Prelude.{
  Option, true, false, ℕ, ◌<◌, ◌≡◌, refl, ◌≢◌, sym, ◌⊎◌, inl, inr, none, some, Option-cases,
  Bool-cases, arith, length, length-set, get_elem?-set_ne, get_elem?-set_self, ◌∙◌, leb, set,
}
use model_lib.Prelude.Int.{ℤ, pos, ◌+ℤ◌, eqb_ℤ}
use model_lib.Env.{Env, Ptr}
use model_lib.Server.{FileOp}
use model_lib.Machine.{is_int}
use model_lib.IoLib.{OpenedFile, Client, Kernel, file_at, set_file, send_file_m, advance, transfer}
use model_lib.IoLib.Table.{IsClient, file_at-some}

module _ ⦃env : Env⦄ where
  -- What Read and Write do to the table when they succeed: the position of the open file moves by
  -- the number that the server sent, which they answer, and the other descriptors stay.
  pub record Advanced (c : Client) (fd : ℕ) (sent : OpenedFile → ℤ) (reply : ℤ) (c' : Client)
      : Type 0 where
    pub file : OpenedFile
    pub before : file_at c (pos fd) ≡ some file
    pub answer : reply ≡ sent file
    pub int : is_int (file.pos +ℤ reply) ≡ true
    pub after : file_at c' (pos fd) ≡ some (record file { pos = file.pos +ℤ reply })
    pub others : (k : ℕ) → k ≢ fd → file_at c' (pos k) ≡ file_at c (pos k)
    pub directory : c'.cur_i ≡ c.cur_i
    pub valid : IsClient c'

  -- the new position of the open file would be no int
  pub record Overflowed (c : Client) (fd : ℕ) (sent : OpenedFile → ℤ) : Type 0 where
    pub file : OpenedFile
    pub before : file_at c (pos fd) ≡ some file
    pub over : is_int (file.pos +ℤ sent file) ≡ false

  abbrev pub Transferred :
      {S : Type 0} (c : Client) (fd : ℕ) (sent : OpenedFile → ℤ) → Option (ℤ × Client × S) → Type 0
  Transferred c fd sent none = Overflowed c fd sent
  Transferred c fd sent (some (reply, c', s')) =
      ((reply ≡ env.error) × (c' ≡ c)) ⊎ Advanced c fd sent reply c'

  file_at-lt :
      (c : Client) (fd : ℕ) (file : OpenedFile)
      → file_at c (pos fd) ≡ some file
      → fd < env.max_open_files
  unfolding file_at
  file_at-lt c fd file h = elim (Bool-cases (leb env.max_open_files fd)) [
    | inl out ↦ let none_there : none ≡ some file = rw out at h in cc
    | inr within ↦ ground arith
  ]

  set_file-Advanced :
      (c : Client) (fd : ℕ) (file : OpenedFile) (sent : OpenedFile → ℤ)
      → IsClient c
      → file_at c (pos fd) ≡ some file
      → is_int (file.pos +ℤ sent file) ≡ true
      → Advanced c fd sent
          (sent file)
          (set_file (pos fd) (some (record file { pos = file.pos +ℤ sent file })) c)
  unfolding set_file file_at
  set_file-Advanced c fd file sent v h small =
      let lt = file_at-lt c fd file h in
      let moved : OpenedFile = record file { pos = file.pos +ℤ sent file } in
      let c' = record c { opened_ft = set c.opened_ft fd (some moved) } in
      let within : fd < length c.opened_ft = omega (arith, v) in
      record {
        file = file;
        before = h;
        answer = refl;
        int = small;
        after =
            file_at-some c' fd (some moved) lt
              (get_elem?-set_self c.opened_ft fd (some moved) within);
        others = λ k ne. rw (get_elem?-set_ne c.opened_ft (some moved) (λ e. ne (sym e)), file_at);
        directory = refl;
        valid = length-set c.opened_ft fd (some moved) ∙ v;
      }

  module _ {S : Type 0} (kernel : Kernel S) where
    advance-Advanced :
        (c : Client) (fd : ℕ) (file : OpenedFile) (sent : OpenedFile → ℤ) (s : S)
        → IsClient c
        → file_at c (pos fd) ≡ some file
        → Transferred c fd sent (advance kernel (pos fd) file (sent file, s) c)
    unfolding advance
    advance-Advanced c fd file sent s v h = elim (Bool-cases (eqb_ℤ (sent file) env.error)) [
      | inl failed ↦ rw (failed, advance) (inl (refl, refl))
      | inr moved ↦ elim (Bool-cases (is_int (file.pos +ℤ sent file))) [
        | inl small ↦ rw (moved, small, advance) (inr (set_file-Advanced c fd file sent v h small))
        | inr over ↦ rw (moved, over, advance) (record { file = file; before = h; over = over })
      ]
    ]

    -- what the server sends for an open file, or ERROR
    abbrev pub answer_of : FileOp → Ptr → (size : ℤ) → S → OpenedFile → ℤ
    answer_of op buf size s file = (send_file_m kernel op file.i_num buf size file.pos s).0

    -- On a table of full length, whatever the server answers: Read and Write of a descriptor answer
    -- ERROR and leave the client as it was; or the descriptor is open, its position moves by the
    -- number that the server sent, which they answer, and which leaves it an int, and the other
    -- descriptors and the current directory stay. The only other case is that the descriptor is open
    -- and the sum of its position and that number is no int, which C leaves undefined.
    pub transfer-Advanced :
        (op : FileOp) (fd : ℕ) (buf : Ptr) (size : ℤ) (c : Client) (s : S)
        → IsClient c
        → Transferred c fd (answer_of op buf size s) (transfer kernel op (pos fd) buf size c s)
    unfolding transfer
    transfer-Advanced op fd buf size c s v = elim (Option-cases (file_at c (pos fd))) [
      | inl e ↦ rw (e, transfer) (inl (refl, refl))
      | inr (file, e) ↦
          let (bytes, s') = send_file_m kernel op file.i_num buf size file.pos s in
          rw (e, transfer) (advance-Advanced c fd file (answer_of op buf size s) s' v e)
    ]
