-- ===== src/Queue/Pending.antt =====
-- Which commands `read_pending` of core/command_queue.py returns.
use pypoc.Prelude.{
  String, Bool, true, false, ◌≡◌, refl, ap, List, [], ◌∷◌, ◌++◌, some, keep, All, arith, ◌==◌,
  string_eq, ◌∙◌, subst, sym, if◌then◌else◌, none,
}
use pypoc.Prelude.Result.{ok}
use pypoc.Prelude.Json.{Fields}
use pypoc.Queue.{
  Command, Line, unreadable, entry, Host, Judgement, taken, refused, ignored, judge, read_lines,
  read_pending, sign, own_signature, enqueue, is_ascii, is_allowed, QueueFile,
}

abbrev pub is_take : Judgement → Bool
is_take taken = true
is_take refused = false
is_take ignored = false

taken_first :
    {A : Type 0} (v : Judgement) (c : A) (rest : List A)
    → (elim v [ taken ↦ c ∷ rest | _ ↦ rest ]) ≡ (if is_take v then c ∷ rest else rest)
taken_first taken c rest = refl
taken_first refused c rest = refl
taken_first ignored c rest = refl

keep_first :
    {A : Type 0} (P : A → Type 0) (b : Bool) (c : A) (rest : List A)
    → (b ≡ true → P c)
    → All P rest
    → All P (if b then c ∷ rest else rest)
keep_first P true c rest h hs = (h refl, hs)
keep_first P false c rest h hs = hs

keep-append :
    {A : Type 0} (p : A → Bool) (xs ys : List A) → keep p (xs ++ ys) ≡ keep p xs ++ keep p ys
keep-append p [] ys = refl
keep-append p (x ∷ xs) ys = ground (arith, keep-append p xs ys)

module _ {F : Type 0} (s : Host F) where
  -- The commands of the lines that can be read, in order.
  abbrev pub commands_of : List (Line F) → List (Command F)
  commands_of [] = []
  commands_of (unreadable t ∷ ls) = commands_of ls
  commands_of (entry c ∷ ls) = c ∷ commands_of ls

  abbrev pub is_taken : Command F → Bool
  is_taken c = is_take (judge s c)

  -- A command that waits and carries the digest of its own fields.
  pub record IsAuthentic (c : Command F) : Type 0 where
    pub waits : c.status ≡ "pending"
    pub signed : c.sig ≡ own_signature s c

  read_lines-taken :
      (ls : List (Line F)) (file : QueueFile F)
      → (read_lines s ls file).0 ≡ keep is_taken (commands_of ls)
  unfolding read_lines
  read_lines-taken [] file = refl
  read_lines-taken (unreadable t ∷ ls) file = read_lines-taken ls file
  read_lines-taken (entry c ∷ ls) file =
      taken_first (judge s c) c _
      ∙ ap (λ r. if is_taken c then c ∷ r else r) (read_lines-taken ls _)

  taken-IsAuthentic : (c : Command F) → (s.secret == "") ≡ false → is_taken c ≡ true → IsAuthentic c
  unfolding judge
  taken-IsAuthentic c signs h =
      ground
        (arith, string_eq.beq_iff c.status "pending", string_eq.beq_iff (own_signature s c) c.sig)

  keep-IsAuthentic :
      (cs : List (Command F)) → (s.secret == "") ≡ false → All IsAuthentic (keep is_taken cs)
  keep-IsAuthentic [] signs = tt
  keep-IsAuthentic (c ∷ cs) signs =
      keep_first IsAuthentic (is_taken c) c _ (taken-IsAuthentic c signs)
        (keep-IsAuthentic cs signs)

  -- No command of the lines is refused, so that a reading of them does not write the file.
  abbrev pub NoneRefused : List (Line F) → Type 0
  NoneRefused ls = All (λ c. judge s c ≡ refused → ⊥) (commands_of ls)

  -- What iterating over a file promises: a file that is not written meanwhile yields its lines.
  pub record IsSteady : Type 0 where
    pub yields_lines : (ls : List (Line F)) → NoneRefused ls → s.yields ls ≡ ls

  -- With a secret, each command that is returned was waiting and carries the digest of its own fields,
  -- whatever the iteration over the file yields; the returned ones are those of the yielded lines that
  -- the judgement takes, in their order. If no command of the file is refused and an iteration over a
  -- file that is not written yields its lines, they are those of the file that the judgement takes.
  pub read_pending-IsAuthentic :
      (ls : List (Line F))
      → (s.secret == "") ≡ false
      → IsSteady
      → All IsAuthentic (read_pending s (some ls)).0
        × ((read_pending s (some ls)).0 ≡ keep is_taken (commands_of (s.yields ls)))
        × (NoneRefused ls → (read_pending s (some ls)).0 ≡ keep is_taken (commands_of ls))
  unfolding read_pending
  read_pending-IsAuthentic ls signs steady =
      let reads = read_lines-taken (s.yields ls) (some ls) in
      (
        rw reads (keep-IsAuthentic (commands_of (s.yields ls)) signs),
        reads,
        (λ calm. reads ∙ ap (λ l. keep is_taken (commands_of l)) (steady.yields_lines ls calm)),
      )

  commands_of-append :
      (xs ys : List (Line F)) → commands_of (xs ++ ys) ≡ commands_of xs ++ commands_of ys
  commands_of-append [] ys = refl
  commands_of-append (unreadable t ∷ xs) ys = commands_of-append xs ys
  commands_of-append (entry c ∷ xs) ys = ap (λ cs. c ∷ cs) (commands_of-append xs ys)

  -- A digest is a text of ASCII characters, and not empty.
  pub record IsHex : Type 0 where
    pub ascii :
        (id kind requested_at : String) (params : Fields F)
        → is_ascii (s.digest s.secret id kind params requested_at) ≡ true
    pub not_empty :
        (id kind requested_at : String) (params : Fields F)
        → (s.digest s.secret id kind params requested_at == "") ≡ false

  signed-taken :
      (c : Command F) → IsHex → c.status ≡ "pending" → c.sig ≡ own_signature s c → is_taken c ≡ true
  unfolding judge sign
  signed-taken c hex waits signed = ground (
    arith,
    string_eq.beq_iff c.status "pending",
    string_eq.beq_iff (own_signature s c) c.sig,
    hex.ascii c.id c.kind c.requested_at c.params,
    hex.not_empty c.id c.kind c.requested_at c.params,
  )

  All-append :
      {A : Type 0} (P : A → Type 0) (xs : List A) (y : A) → All P xs → P y → All P (xs ++ (y ∷ []))
  All-append P [] y h p = (p, tt)
  All-append P (x ∷ xs) y (h, hs) p = (h, All-append P xs y hs p)

  taken-refused : (v : Judgement) → is_take v ≡ true → v ≡ refused → ⊥
  taken-refused taken h e = ground arith
  taken-refused refused h e = ground arith
  taken-refused ignored h e = ground arith

  NoneRefused-append :
      (c : Command F) (ls : List (Line F))
      → is_taken c ≡ true
      → NoneRefused ls
      → NoneRefused (ls ++ (entry c ∷ []))
  NoneRefused-append c ls h calm =
      subst (All (λ d. judge s d ≡ refused → ⊥)) (sym (commands_of-append ls (entry c ∷ []))) (
        All-append (λ d. judge s d ≡ refused → ⊥) (commands_of ls) c calm
          (taken-refused (judge s c) h))

  appended-taken :
      (c : Command F) (ls : List (Line F)) (file file' : QueueFile F)
      → is_taken c ≡ true
      → (read_lines s (ls ++ (entry c ∷ [])) file).0 ≡ (read_lines s ls file').0 ++ (c ∷ [])
  appended-taken c ls file file' h =
      let last : keep is_taken (c ∷ []) ≡ c ∷ [] = rw h refl in
      read_lines-taken (ls ++ (entry c ∷ [])) file
      ∙ ap (keep is_taken) (commands_of-append ls (entry c ∷ []))
      ∙ keep-append is_taken (commands_of ls) (c ∷ [])
      ∙ rw (last, read_lines-taken ls file') refl

  -- A command of an allowed kind that is put into a file none of whose commands is refused is what the
  -- next reading returns last, after the commands that a reading returned before, under any secret or
  -- none, if an iteration over a file that is not written yields its lines.
  pub enqueue-read_pending :
      (id requested_at kind : String) (params : Fields F) (ls : List (Line F))
      → IsHex
      → IsSteady
      → NoneRefused ls
      → is_allowed kind ≡ true
      → (cmd : Command F) × (cmd.id ≡ id)
        × (cmd.kind ≡ kind)
        × (cmd.params ≡ params)
        × ((enqueue s id requested_at kind params (some ls)).0 ≡ ok cmd)
        × ((read_pending s (enqueue s id requested_at kind params (some ls)).1).0
            ≡ (read_pending s (some ls)).0 ++ (cmd ∷ []))
  unfolding enqueue read_pending
  enqueue-read_pending id requested_at kind params ls hex steady calm allowed =
      let cmd : Command F = record {
        id = id;
        kind = kind;
        params = params;
        requested_at = requested_at;
        status = "pending";
        result = none;
        sig = sign s id kind params requested_at;
      } in
      (
        cmd,
        refl,
        refl,
        refl,
        rw allowed refl,
        rw allowed (
            ap (λ l. (read_lines s l (some (ls ++ (entry cmd ∷ [])))).0)
              (steady.yields_lines (ls ++ (entry cmd ∷ []))
                (NoneRefused-append cmd ls (signed-taken cmd hex refl refl) calm))
            ∙ appended-taken cmd ls (some (ls ++ (entry cmd ∷ []))) (some ls)
                (signed-taken cmd hex refl refl)
            ∙ ap (λ l. (read_lines s l (some ls)).0 ++ (cmd ∷ []))
                (sym (steady.yields_lines ls calm))),
      )
