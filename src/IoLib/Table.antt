-- ===== src/IoLib/Table.antt =====
-- The table of open files: Open, Create and Close.
use model_lib.Prelude.{
  some_inj, ℕ, zero, suc, ◌<◌, ◌≡◌, refl, sym, ap, ◌∙◌, ◌≢◌, ◌⊎◌, inl, inr, Option, none, some,
  List, [], ◌∷◌, arith, leb, length, false, get_elem?, set, length-set, get_elem?-set_self,
  get_elem?-set_ne,
}
use model_lib.Prelude.Int.{ℤ, pos}
use model_lib.Env.{Env}
use model_lib.IoLib.{OpenedFile, Client, first_free, file_at, set_file, place_file, close}

abbrev Files : Type 0
Files = List (Option OpenedFile)

-- the slots below `n` are taken
abbrev pub Taken : Files → ℕ → Type 0
Taken files n = (k : ℕ) → k < n → (file : OpenedFile) × (get_elem? files k ≡ some (some file))

abbrev Searched : Files → Type 0
Searched files =
    ((first_free files ≡ none) × Taken files (length files))
    ⊎ ((fd : ℕ) × (first_free files ≡ some fd)
        × (get_elem? files fd ≡ some none)
        × (fd < length files)
        × Taken files fd)

Taken-cons :
    (file : OpenedFile) (files : Files) (n : ℕ) → Taken files n → Taken (some file ∷ files) (suc n)
Taken-cons file files n h zero lt = (file, refl)
Taken-cons file files n h (suc k) lt = h k (omega (arith, lt))

first_free_cases : (files : Files) → Searched files
unfolding first_free
first_free_cases [] = inl (refl, λ k lt. absurd (omega (arith, lt)))
first_free_cases (none ∷ files) =
    inr (0, refl, refl, omega arith, λ k lt. absurd (omega (arith, lt)))
first_free_cases (some file ∷ files) = elim (first_free_cases files) [
  | inl (e, taken) ↦ inl (rw e refl, Taken-cons file files (length files) taken)
  | inr (fd, e, free, lt, taken) ↦
      inr (suc fd, rw e refl, free, omega (arith, lt), Taken-cons file files fd taken)
]

module _ ⦃env : Env⦄ where
  -- the table has its full length
  abbrev pub IsClient : Client → Type 0
  IsClient c = length c.opened_ft ≡ env.max_open_files

  -- What Open and Create promise of the table, given the number of an inode. Either the table is full
  -- and stays, and the answer is ERROR, or the answer is the least free descriptor.
  pub record Placed (i_num : ℤ) (c : Client) (fd : ℕ) : Type 0 where
    pub client : Client
    pub returns : place_file i_num c ≡ (pos fd, client)
    pub bounded : fd < env.max_open_files
    pub least : Taken c.opened_ft fd
    pub opened : file_at client (pos fd) ≡ some (record { i_num = i_num; pos = pos 0 })
    pub others : (k : ℕ) → k ≢ fd → file_at client (pos k) ≡ file_at c (pos k)
    pub valid : IsClient client
    pub closed : close (pos fd) client ≡ (pos 0, c)

  set-set_self :
      (files : Files) (i : ℕ) (v w : Option OpenedFile)
      → get_elem? files i ≡ some w
      → set (set files i v) i w ≡ files
  set-set_self [] i v w h = refl
  set-set_self (x ∷ xs) zero v w h = ap (λ t. t ∷ xs) (sym (some_inj h))
  set-set_self (x ∷ xs) (suc i) v w h = ap (λ t. x ∷ t) (set-set_self xs i v w h)

  pub file_at-some :
      (c : Client) (k : ℕ) (file : Option OpenedFile)
      → k < env.max_open_files
      → get_elem? c.opened_ft k ≡ some file
      → file_at c (pos k) ≡ file
  unfolding file_at
  file_at-some c k file lt h =
      let in_table : leb env.max_open_files k ≡ false = ground arith in rw (in_table, h, file_at)

  first-Placed :
      (i_num : ℤ) (c : Client) (fd : ℕ)
      → IsClient c
      → first_free c.opened_ft ≡ some fd
      → get_elem? c.opened_ft fd ≡ some none
      → fd < length c.opened_ft
      → Taken c.opened_ft fd
      → Placed i_num c fd
  unfolding place_file close set_file file_at
  first-Placed i_num c fd v first free lt taken =
      let file : OpenedFile = record { i_num = i_num; pos = pos 0 } in
      let c' = record c { opened_ft = set c.opened_ft fd (some file) } in
      let bound = rw v at lt in
      let at_fd =
        file_at-some c' fd (some file) bound (get_elem?-set_self c.opened_ft fd (some file) lt) in
      record {
        client = c';
        returns = rw (first, place_file);
        bounded = bound;
        least = taken;
        opened = at_fd;
        others = λ k ne. rw (get_elem?-set_ne c.opened_ft (some file) (λ e. ne (sym e)), file_at);
        valid = length-set c.opened_ft fd (some file) ∙ v;
        closed = rw (at_fd, set-set_self c.opened_ft fd (some file) none free, close);
      }

  -- On a table of full length, Open and Create, once they have an inode, either find the table full,
  -- change nothing and answer ERROR; or they answer the least descriptor that is not taken, which is
  -- below MAX_OPEN_FILES, and put the inode there at position 0, the other descriptors stay, and a
  -- Close of the descriptor answers 0 and gives the table back as it was.
  pub place_file-Placed :
      (i_num : ℤ) (c : Client)
      → IsClient c
      → ((place_file i_num c ≡ (env.error, c)) × Taken c.opened_ft env.max_open_files)
        ⊎ ((fd : ℕ) × Placed i_num c fd)
  unfolding place_file
  place_file-Placed i_num c v = elim (first_free_cases c.opened_ft) [
    | inl (e, taken) ↦ inl (rw (e, place_file), rw v at taken)
    | inr (fd, e, free, lt, taken) ↦ inr (fd, first-Placed i_num c fd v e free lt taken)
  ]
