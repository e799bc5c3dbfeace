-- ===== src/Pages/Composite/Union.antt =====
-- About the union of the targets' lines: what it says of a line, and that nothing is in it twice.
use omnivore.Prelude.{
  ◌≡◌, ◌↔◌, refl, sym, ap, ◌∙◌, Bool, true, false, ◌||◌, Option, none, some, inl, inr, List, [],
  ◌∷◌, arith,
}
use omnivore.Prelude.Tests.{if◌then◌else◌, Bool-cases}
use omnivore.Prelude.Int.{ℤ, is_positive, pos, negsuc}
use omnivore.Text.Base.{Text, text_eq, text_eq_iff, text_eq_sound}
use omnivore.Model.Report.{LineCoverage, FileCoverage}
use omnivore.Pages.Target.{TargetSnapshot}
use omnivore.Pages.Composite.{
  LineMap, UnionMap, same_line, mark, mark_all, mark_file, mark_files, union_of,
}

pub same_line_iff : (a b : ℤ) → (same_line a b ≡ true) ↔ (a ≡ b)
unfolding same_line
same_line_iff (pos a) (pos b) = ground arith
same_line_iff (pos a) (negsuc b) = ground arith
same_line_iff (negsuc a) (pos b) = ground arith
same_line_iff (negsuc a) (negsuc b) = ground arith

-- What two sources say of a line: it is there if it is in one, and covered if one covers it.
abbrev pub join : Option Bool → Option Bool → Option Bool
join none b = b
join (some a) none = some a
join (some a) (some b) = some (a || b)

join_assoc : (a b c : Option Bool) → join (join a b) c ≡ join a (join b c)
join_assoc none b c = refl
join_assoc (some a) none c = refl
join_assoc (some a) (some b) none = refl
join_assoc (some true) (some b) (some c) = refl
join_assoc (some false) (some b) (some c) = refl

-- what the records of a file say of a line,
unfoldable pub said_by_lines : ℤ → List LineCoverage → Option Bool
said_by_lines n [] = none
said_by_lines n (l ∷ ls) =
    join (if same_line l.line_number n then some (is_positive l.hit_count) else none)
      (said_by_lines n ls)

module _ {R : Type 0} where
  -- the files with a path,
  unfoldable pub said_by_files : Text → ℤ → List (FileCoverage R) → Option Bool
  said_by_files path n [] = none
  said_by_files path n (f ∷ fs) =
      join (if text_eq f.path path then said_by_lines n f.lines else none) (said_by_files path n fs)

  -- and all targets.
  unfoldable pub said_by : Text → ℤ → List (TargetSnapshot R) → Option Bool
  said_by path n [] = none
  said_by path n (t ∷ ts) = join (said_by_files path n t.files) (said_by path n ts)

unfoldable pub find_line : ℤ → LineMap → Option Bool
find_line n [] = none
find_line n ((m, b) ∷ lines) = if same_line m n then some b else find_line n lines

unfoldable pub line_at : Text → ℤ → UnionMap → Option Bool
line_at path n [] = none
line_at path n ((p, lines) ∷ union) =
    if text_eq p path then find_line n lines else line_at path n union

join-none : (a : Option Bool) → join a none ≡ a
join-none none = refl
join-none (some a) = refl

same_line_not : (k m n : ℤ) → same_line k m ≡ false → same_line k n ≡ true → same_line m n ≡ false
same_line_not k m n p q = elim (Bool-cases (same_line m n)) [
  | inl e ↦ cc ((same_line_iff m n).0 e, p, q)
  | inr e ↦ e
]

find_line-mark :
    (n m : ℤ) (hit : Bool) (lines : LineMap)
    → find_line n (mark m hit lines)
      ≡ join (find_line n lines) (if same_line m n then some hit else none)
unfolding find_line mark
find_line-mark n m hit [] = refl
find_line-mark n m hit ((k, b) ∷ lines) = elim (Bool-cases (same_line k m)) [
  | inl p ↦ elim (Bool-cases (same_line k n)) [
    | inl q ↦
        (let e : same_line m n ≡ true = rw (← (same_line_iff k m).0 p) q in rw p (rw q (rw e refl)))
    | inr q ↦
        (let e : same_line m n ≡ false = rw (← (same_line_iff k m).0 p) q in
          rw p (rw q (rw e (sym (join-none (find_line n lines))))))
  ]
  | inr p ↦ elim (Bool-cases (same_line k n)) [
    | inl q ↦ rw p (rw q (rw (same_line_not k m n p q) refl))
    | inr q ↦ rw p (rw q (find_line-mark n m hit lines))
  ]
]

text_eq_not : (q p s : Text) → text_eq q p ≡ false → text_eq q s ≡ true → text_eq p s ≡ false
text_eq_not q p s a b = elim (Bool-cases (text_eq p s)) [
  | inl e ↦ cc (text_eq_sound p s e, a, b)
  | inr e ↦ e
]

find_line-mark_all :
    (n : ℤ) (ls : List LineCoverage) (lines : LineMap)
    → find_line n (mark_all ls lines) ≡ join (find_line n lines) (said_by_lines n ls)
unfolding mark_all said_by_lines
find_line-mark_all n [] lines = sym (join-none (find_line n lines))
find_line-mark_all n (l ∷ ls) lines =
    let hit = is_positive l.hit_count in
    find_line-mark_all n ls (mark l.line_number hit lines)
    ∙ ap (λ o. join o (said_by_lines n ls)) (find_line-mark n l.line_number hit lines)
    ∙ join_assoc (find_line n lines) (if same_line l.line_number n then some hit else none)
        (said_by_lines n ls)

line_at-mark_file :
    (path : Text) (n : ℤ) (p : Text) (ls : List LineCoverage) (union : UnionMap)
    → line_at path n (mark_file p ls union)
      ≡ join (line_at path n union) (if text_eq p path then said_by_lines n ls else none)
unfolding line_at mark_file
line_at-mark_file path n p ls [] = elim (Bool-cases (text_eq p path)) [
  | inl e ↦ rw e (unfold find_line in find_line-mark_all n ls [])
  | inr e ↦ rw e refl
]
line_at-mark_file path n p ls ((q, lines) ∷ union) = elim (Bool-cases (text_eq q p)) [
  | inl a ↦ elim (Bool-cases (text_eq q path)) [
    | inl b ↦
        (let e : text_eq p path ≡ true = rw (← (text_eq_iff q p).0 a) b in
          rw a (rw b (rw e (find_line-mark_all n ls lines))))
    | inr b ↦
        (let e : text_eq p path ≡ false = rw (← (text_eq_iff q p).0 a) b in
          rw a (rw b (rw e (sym (join-none (line_at path n union))))))
  ]
  | inr a ↦ elim (Bool-cases (text_eq q path)) [
    | inl b ↦ rw a (rw b (rw (text_eq_not q p path a b) (sym (join-none (find_line n lines)))))
    | inr b ↦ rw a (rw b (line_at-mark_file path n p ls union))
  ]
]

module _ {R : Type 0} (path : Text) (n : ℤ) where
  line_at-mark_files :
      (fs : List (FileCoverage R)) (union : UnionMap)
      → line_at path n (mark_files fs union) ≡ join (line_at path n union) (said_by_files path n fs)
  unfolding mark_files said_by_files
  line_at-mark_files [] union = sym (join-none (line_at path n union))
  line_at-mark_files (f ∷ fs) union =
      line_at-mark_files fs (mark_file f.path f.lines union)
      ∙ ap (λ o. join o (said_by_files path n fs)) (line_at-mark_file path n f.path f.lines union)
      ∙ join_assoc (line_at path n union)
          (if text_eq f.path path then said_by_lines n f.lines else none) (said_by_files path n fs)

  -- The union says of a line what it said before, joined with what the targets say.
  pub line_at-union_of :
      (ts : List (TargetSnapshot R)) (union : UnionMap)
      → line_at path n (union_of ts union) ≡ join (line_at path n union) (said_by path n ts)
  unfolding union_of said_by
  line_at-union_of [] union = sym (join-none (line_at path n union))
  line_at-union_of (t ∷ ts) union =
      line_at-union_of ts (mark_files t.files union)
      ∙ ap (λ o. join o (said_by path n ts)) (line_at-mark_files t.files union)
      ∙ join_assoc (line_at path n union) (said_by_files path n t.files) (said_by path n ts)
