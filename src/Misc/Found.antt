-- ===== src/Misc/Found.antt =====
-- src/hev-misc.c: what `get_pid_fd` finds in /proc as the kernel presents it.
use natmap.Prelude.{
  ℕ, zero, suc, ◌^◌, ◌≤◌, ◌<◌, ◌≡◌, ◌≢◌, refl, sym, ap, ap₂, ◌∙◌, List, [], ◌∷◌, ◌++◌, map, Option,
  none, some, inl, inr, true, false, Bool-cases, ◌==◌, arith, All, length, length-append, take,
}
use natmap.Prelude.Int.{ℤ, pos, int_of}
use natmap.Text.{print_unsigned, strtoul10}
use natmap.Text.Decimal.{strtoul10-print_unsigned, length-print_unsigned, length-print_digits}
use natmap.Misc.Kernel.{Calls}
use natmap.Misc.{dt_dir, dt_lnk, same_text, socket_name, reads, link_path, fd_path, get_pid_fd}
use natmap.Misc.Search.{
  Snapshot, of_snapshot, listing, first, owned, owned_by_all, get_pid_fd-first,
}
use natmap.Misc.Proc.{
  Held, descriptor, no_link, Item, process, other, entry_of, item_of, proc_file, fd_dir, fd_file,
  socket_text, IsHeld, IsItem, Misses, MissesAll, Found, nowhere, here,
}

take_all : (n : ℕ) (s : List ℕ) → length s ≤ n → take n s ≡ s
take_all zero [] h = refl
take_all zero (c ∷ s) h = absurd (omega arith)
take_all (suc n) [] h = refl
take_all (suc n) (c ∷ s) h = ap (λ t. c ∷ t) (take_all n s (omega arith))

-- A text of which a shorter one is the front is that text.
take_short : (n : ℕ) (s : List ℕ) → length (take n s) < n → take n s ≡ s
take_short zero s h = absurd (omega arith)
take_short (suc n) [] h = refl
take_short (suc n) (c ∷ s) h = ap (λ t. c ∷ t) (take_short n s (omega arith))

same_text-eq : (s s' : List ℕ) → same_text s s' ≡ true → s ≡ s'
same_text-eq [] [] h = refl
same_text-eq [] (c ∷ s') h = cc
same_text-eq (c ∷ s) [] h = cc
same_text-eq (c ∷ s) (c' ∷ s') h =
    ap₂ (λ x xs. x ∷ xs) (ground arith) (same_text-eq s s' (ground arith))

same_text_refl : (s : List ℕ) → same_text s s ≡ true
same_text_refl [] = refl
same_text_refl (c ∷ s) = let ih = same_text_refl s in ground (arith, ih)

reads-eq :
    (text : List ℕ) (o : Option (List ℕ)) → length text < 255 → reads text o ≡ true → o ≡ some text
reads-eq text none short h = cc
reads-eq text (some s) short h =
    let same = same_text-eq (take 255 s) text h in
    let fits : length (take 255 s) < 255 = rw same short in
    ap some (sym (take_short 255 s fits) ∙ same)

reads_same : (text : List ℕ) → length text < 255 → reads text (some text) ≡ true
reads_same text short =
    let whole = take_all 255 text (omega arith) in rw whole (same_text_refl text)

reads-ne :
    (text : List ℕ) (o : Option (List ℕ)) → length text < 255 → reads text o ≡ false → o ≢ some text
reads-ne text o short h e =
    let yes_same : reads text o ≡ true = ap (reads text) e ∙ reads_same text short in cc

socket_name-eq : (inode : ℕ) → socket_name inode ≡ socket_text inode
socket_name-eq inode =
    let few = length-print_digits 20 inode (b']' ∷ []) in
    take_all 254 (socket_text inode) (omega (arith, few))

fd_path-eq : (name : List ℕ) → length name ≤ 255 → fd_path name ≡ fd_dir name
fd_path-eq name short = take_all 1022 (fd_dir name) (omega (arith, length-append {A = ℕ}))

link_path-eq : (pid fd : ℕ) → link_path (print_unsigned pid) (print_unsigned fd) ≡ fd_file pid fd
link_path-eq pid fd =
    let few = length-print_unsigned pid in
    let few' = length-print_unsigned fd in
    take_all 1022 (fd_file pid fd) (omega (arith, length-append {A = ℕ}, few, few'))

number_text : (n : ℕ) → n < 2 ^ 31 → int_of (strtoul10 (print_unsigned n)) ≡ pos n
number_text n small = let back = strtoul10-print_unsigned n (omega arith) in rw back (ground arith)

first_behind : {A : Type 0} (xs ys : List A) → first xs ≡ none → first (xs ++ ys) ≡ first ys
first_behind [] ys h = refl
first_behind (x ∷ xs) ys h = cc

first_in_front :
    {A : Type 0} (xs ys : List A) (x : A) → first xs ≡ some x → first (xs ++ ys) ≡ some x
first_in_front [] ys x h = cc
first_in_front (x' ∷ xs) ys x h = h

-- The first descriptor of a process that is this socket, or that it has none.
data FoundHeld (text : List ℕ) (pid : ℕ) (helds : List Held) : Option (ℤ × ℤ) → Type 0 where
  not_held : All (Misses text) helds → FoundHeld text pid helds none
  held :
      (fd : ℕ) (before after : List Held)
      → helds ≡ before ++ descriptor fd (some text) ∷ after
      → All (Misses text) before
      → FoundHeld text pid helds (some (pos pid, pos fd))

skip_held :
    (text : List ℕ) (pid : ℕ) (h : Held) (helds : List Held) (r : Option (ℤ × ℤ))
    → Misses text h
    → FoundHeld text pid helds r
    → FoundHeld text pid (h ∷ helds) r
skip_held text pid h helds _ m (not_held ms) = not_held (m, ms)
skip_held text pid h helds _ m (held fd before after e ms) =
    held fd (h ∷ before) after (ap (λ l. h ∷ l) e) (m, ms)

skip_item :
    (text : List ℕ) (i : Item) (items : List Item) (r : Option (ℤ × ℤ))
    → MissesAll text i
    → Found text items r
    → Found text (i ∷ items) r
skip_item text i items _ m (nowhere ms) = nowhere (m, ms)
skip_item text i items _ m (here before after pid fd helds helds' e ms free) =
    here (i ∷ before) after pid fd helds helds' (ap (λ l. i ∷ l) e) (m, ms) free

module _ (s : Snapshot) (text : List ℕ) (short : length text < 255) where
  -- The process's entry, and the links that it owns.
  abbrev links_of : ℕ → List Held → List (ℤ × ℤ)
  links_of pid helds =
      owned s text (record { type = 4; name = print_unsigned pid }) (map entry_of helds)

  owned-FoundHeld :
      (pid : ℕ) (helds : List Held)
      → pid < 2 ^ 31
      → All (IsHeld s pid) helds
      → FoundHeld text pid helds (first (links_of pid helds))
  owned-FoundHeld pid [] small h = not_held tt
  owned-FoundHeld pid (no_link e ∷ helds) small (other_type, h) =
      let skipped : (e.type == dt_lnk) ≡ false = ground arith in
      rw skipped (skip_held text pid (no_link e) helds _ tt (owned-FoundHeld pid helds small h))
  owned-FoundHeld pid (descriptor fd link ∷ helds) small ((few, reads_to), h) =
      let path = link_path-eq pid fd in
      elim (Bool-cases (reads text link)) [
        | inl same ↦
            let is_text = reads-eq text link short same in
            rw (path, reads_to, same, number_text pid small, number_text fd few)
              (held fd [] helds (ap (λ l. descriptor fd l ∷ helds) is_text) tt)
        | inr differs ↦
            rw (path, reads_to, differs)
              (skip_held text pid (descriptor fd link) helds _ (reads-ne text link short differs)
                (owned-FoundHeld pid helds small h))
      ]

  -- Behind a process, with what it has of the socket.
  process-Found :
      (pid : ℕ) (helds : List Held) (items : List Item) (mine : List (ℤ × ℤ)) (r : Option (ℤ × ℤ))
      (rest : List (ℤ × ℤ))
      → first mine ≡ r
      → FoundHeld text pid helds r
      → Found text items (first rest)
      → Found text (process pid helds ∷ items) (first (mine ++ rest))
  process-Found pid helds items mine _ rest e (not_held ms) later =
      rw (first_behind mine rest e) (skip_item text (process pid helds) items _ ms later)
  process-Found pid helds items mine _ rest e (held fd before after split ms) later =
      rw (first_in_front mine rest _ e)
        (here [] items pid fd before after (ap (λ l. process pid l ∷ items) split) tt ms)

  items-Found :
      (items : List Item)
      → All (IsItem s) items
      → Found text items (first (owned_by_all s text (map item_of items)))
  items-Found [] h = nowhere tt
  items-Found (process pid helds ∷ items) ((small, there, each), h) =
      let path : fd_path (print_unsigned pid) ≡ fd_dir (print_unsigned pid) =
        fd_path-eq (print_unsigned pid) (omega (arith, length-print_unsigned pid)) in
      rw (path, there)
        (process-Found pid helds items (links_of pid helds) _ _ refl
          (owned-FoundHeld pid helds small each) (items-Found items h))
  items-Found (other e ∷ items) (inl no_dir, h) =
      let skipped : (e.type == dt_dir) ≡ false = ground arith in
      rw skipped (skip_item text (other e) items _ tt (items-Found items h))
  items-Found (other e ∷ items) (inr (name_fits, no_fds), h) =
      let path = fd_path-eq e.name name_fits in
      elim (Bool-cases (e.type == dt_dir)) [
        | inl listed ↦
            rw (listed, path, no_fds) (skip_item text (other e) items _ tt (items-Found items h))
        | inr skipped ↦ rw skipped (skip_item text (other e) items _ tt (items-Found items h))
      ]

-- Where /proc does not change meanwhile and lists processes and other entries, each process with
-- the descriptors that it has and the texts of their links, numbers in decimals: `get_pid_fd` gives
-- the numbers of the first process and of its first descriptor whose link is "socket:[inode]", so
-- none before them is; or null, and then none is.
pub get_pid_fd-Found :
    (s : Snapshot) (items : List Item) (inode : ℕ) (t : Calls)
    → s.entries (proc_file []) ≡ some (map item_of items)
    → All (IsItem s) items
    → Found (socket_text inode) items (get_pid_fd (of_snapshot s) inode t).0
get_pid_fd-Found s items inode t there h =
    let few = length-print_digits 20 inode (b']' ∷ []) in
    let short : length (socket_text inode) < 255 = omega (arith, few) in
    let entries : listing (s.entries (proc_file [])) ≡ map item_of items = ap listing there in
    let found = get_pid_fd-first s inode t in
    let name = socket_name-eq inode in
    rw (found, name, entries) (items-Found s (socket_text inode) short items h)
