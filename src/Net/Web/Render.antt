-- ===== src/Net/Web/Render.antt =====
-- `render_html` ends, and shows nothing but printable characters.
use crab_os.Prelude.{
  ℕ, zero, suc, ◌-◌, ◌≤◌, ◌≡◌, refl, sym, ◌∙◌, subst, ◌⊎◌, inl, inr, Bool, true, false, not, ◌&&◌,
  ◌||◌, Bool-cases, Option, none, some, List, [], ◌∷◌, length, take, drop, length-drop, All,
  if◌then◌else◌, is_ascii_graphic, is_ascii_whitespace, arith,
}
use crab_os.Net.Web.Bytes.{starts_with, eq_ignore_ascii_case}
use crab_os.Net.Web.{
  PageState, entities, entity_at, ends_with, script, style, matches_block, tag_step, push_byte,
  shown_step, text_step, round, name_of, page_step, page_loop, render_html,
}

-- Line feed, tab, and the printable characters of ASCII.
abbrev pub Visible : ℕ → Type 0
Visible c = (c ≡ 9) ⊎ (c ≡ 10) ⊎ ((32 ≤ c) × (c ≤ 126))

some-injective {ℓ} : {A : Type ℓ} (a b : A) → some a ≡ some b → a ≡ b
some-injective a b h = cc

entity_at-All {ℓ} :
    (P : (List ℕ × ℕ) → Type ℓ) (table : List (List ℕ × ℕ)) (body : List ℕ) (e : List ℕ × ℕ)
    → All P table
    → entity_at table body ≡ some e
    → P e
entity_at-All P [] body e a h = absurd cc
entity_at-All P (x ∷ table) body e a h = elim (Bool-cases (starts_with x.0 body)) [
  | inl t ↦ let same : x ≡ e = some-injective _ _ (sym (rw t refl) ∙ h) in subst P same a.0
  | inr f ↦ entity_at-All P table body e a.1 (sym (rw f refl) ∙ h)
]

abbrev IsEntity : (List ℕ × ℕ) → Type 0
IsEntity e = (1 ≤ length e.0) × Visible e.1

entities-IsEntity : All IsEntity entities
entities-IsEntity = (
  (omega arith, inr (inr (omega arith))),
  (
    (omega arith, inr (inr (omega arith))),
    (
      (omega arith, inr (inr (omega arith))),
      ((omega arith, inr (inr (omega arith))), ((omega arith, inr (inr (omega arith))), tt)),
    ),
  ),
)

-- What both branches have.
if_intro {ℓ κ} :
    {A : Type ℓ} (P : A → Type κ) (b : Bool) (x y : A) → P x → P y → P (if b then x else y)
if_intro P true x y p q = p
if_intro P false x y p q = q

graphic-Visible : (byte : ℕ) → is_ascii_graphic byte ≡ true → Visible byte
graphic-Visible byte h = inr (inr (ground arith))

module _ (P : ℕ → Type 0) (allowed : (c : ℕ) → Visible c → P c) where
  -- A round takes a byte at least, and adds only visible characters.
  pub record Steps (rest : List ℕ) (after : PageState) : Type 0 where
    pub shorter : length after.body ≤ length rest
    pub visible : All P after.output

  tag_step-Steps :
      (name rest rest' : List ℕ) (hidden : Bool) (output : List ℕ)
      → length rest' ≤ length rest
      → All P output
      → Steps rest (tag_step name rest' hidden output)
  unfolding tag_step
  tag_step-Steps name rest rest' hidden output h v =
      let line : All P (10 ∷ output) = (allowed 10 (inr (inl refl)), v) in
      let hides = eq_ignore_ascii_case name script || eq_ignore_ascii_case name style in
      let shows =
        eq_ignore_ascii_case name (b'/' ∷ script) || eq_ignore_ascii_case name (b'/' ∷ style) in
      let breaks = not hidden && matches_block name && not (ends_with output 10) in
      let same : PageState = record { body = rest'; hidden = hidden; output = output } in
      let broken : PageState = record { body = rest'; hidden = hidden; output = 10 ∷ output } in
      let last = if breaks then broken else same in
      let on : PageState = record { body = rest'; hidden = false; output = output } in
      let off : PageState = record { body = rest'; hidden = true; output = output } in
      if_intro (Steps rest) hides off (if shows then on else last)
        (record { shorter = h; visible = v })
        (if_intro (Steps rest) shows on last (record { shorter = h; visible = v })
          (if_intro (Steps rest) breaks broken same (record { shorter = h; visible = line })
            (record { shorter = h; visible = v })))

  push_byte-All : (byte : ℕ) (output : List ℕ) → All P output → All P (push_byte byte output)
  unfolding push_byte
  push_byte-All byte output v =
      let space : All P (b' ' ∷ output) = (allowed b' ' (inr (inr (omega arith))), v) in
      let after_blank = not (ends_with output b' ') && not (ends_with output 10) in
      if_intro (All P) (is_ascii_whitespace byte) (if after_blank then b' ' ∷ output else output)
        (if is_ascii_graphic byte then byte ∷ output else output)
        (if_intro (All P) after_blank (b' ' ∷ output) output space v)
        (elim (Bool-cases (is_ascii_graphic byte)) [
          | inl g ↦ rw g (allowed byte (graphic-Visible byte g), v)
          | inr g ↦ rw g v
        ])

  shown_step-Steps :
      (byte : ℕ) (rest output : List ℕ) (found : Option (List ℕ × ℕ))
      → ((e : List ℕ × ℕ) → found ≡ some e → IsEntity e)
      → All P output
      → Steps rest (shown_step byte rest output found)
  shown_step-Steps byte rest output none f v = record {
    shorter = omega arith;
    visible = push_byte-All byte output v;
  }
  shown_step-Steps byte rest output (some (entity, character)) f v =
      let (long, seen) = f (entity, character) refl in
      record {
        shorter = omega (arith, length-drop (length entity) (byte ∷ rest));
        visible = (allowed character seen, v);
      }

  text_step-Steps :
      (byte : ℕ) (rest : List ℕ) (hidden : Bool) (output : List ℕ)
      → All P output
      → Steps rest (text_step byte rest hidden output)
  unfolding text_step
  text_step-Steps byte rest true output v = record { shorter = omega arith; visible = v }
  text_step-Steps byte rest false output v =
      shown_step-Steps byte rest output _
        (λ e. entity_at-All IsEntity entities (byte ∷ rest) e entities-IsEntity) v

  round-Steps :
      (byte : ℕ) (rest : List ℕ) (hidden : Bool) (output : List ℕ) (end : Option ℕ)
      → All P output
      → Steps rest (round byte rest hidden output end)
  round-Steps byte rest hidden output none v = text_step-Steps byte rest hidden output v
  round-Steps byte rest hidden output (some end) v =
      tag_step-Steps (name_of (take (end - 1) rest)) rest (drop end rest) hidden output
        (omega (arith, length-drop end rest)) v

  page_step-Steps :
      (byte : ℕ) (rest : List ℕ) (hidden : Bool) (output : List ℕ)
      → All P output
      → Steps rest (page_step byte rest hidden output)
  unfolding page_step
  page_step-Steps byte rest hidden output v = round-Steps byte rest hidden output _ v

All-unit : (xs : List ℕ) → All (λ _. Unit {0}) xs
All-unit [] = tt
All-unit (x ∷ xs) = (tt, All-unit xs)

-- Without a claim on the output: a round takes a byte at least.
page_step-shorter :
    (byte : ℕ) (rest : List ℕ) (hidden : Bool) (output : List ℕ)
    → length (page_step byte rest hidden output).body ≤ length rest
page_step-shorter byte rest hidden output =
    (page_step-Steps (λ _. Unit) (λ c _. tt) byte rest hidden output (All-unit output)).shorter

page_loop-Visible :
    (fuel : ℕ) (body : List ℕ) (hidden : Bool) (output : List ℕ)
    → All Visible output
    → All Visible (page_loop fuel (record { body = body; hidden = hidden; output = output }))
unfolding page_loop
page_loop-Visible zero body hidden output v = v
page_loop-Visible (suc fuel) [] hidden output v = v
page_loop-Visible (suc fuel) (byte ∷ rest) hidden output v =
    let s = page_step-Steps Visible (λ c h. h) byte rest hidden output v in
    page_loop-Visible fuel _ _ _ s.visible

pub render_html-Visible :
    (body output : List ℕ) → All Visible output → All Visible (render_html body output)
unfolding render_html
render_html-Visible body output v = page_loop-Visible (length body) body false output v

-- More fuel than bytes changes nothing.
page_loop-enough :
    (n m : ℕ) (body : List ℕ) (hidden : Bool) (output : List ℕ)
    → length body ≤ n
    → length body ≤ m
    → page_loop n (record { body = body; hidden = hidden; output = output })
      ≡ page_loop m (record { body = body; hidden = hidden; output = output })
unfolding page_loop
page_loop-enough zero zero body hidden output h k = refl
page_loop-enough zero (suc m) [] hidden output h k = refl
page_loop-enough (suc n) zero [] hidden output h k = refl
page_loop-enough (suc n) (suc m) [] hidden output h k = refl
page_loop-enough zero m (byte ∷ rest) hidden output h k = absurd (omega arith)
page_loop-enough (suc n) zero (byte ∷ rest) hidden output h k = absurd (omega arith)
page_loop-enough (suc n) (suc m) (byte ∷ rest) hidden output h k =
    let s = page_step-shorter byte rest hidden output in
    page_loop-enough n m _ _ _ (omega arith) (omega arith)

-- The whole loop, with as much fuel as there are bytes.
unfoldable pub run : PageState → List ℕ
run p = page_loop (length p.body) p

-- A round, and then the rest.
pub run_round :
    (byte : ℕ) (rest : List ℕ) (hidden : Bool) (output : List ℕ)
    → run (record { body = byte ∷ rest; hidden = hidden; output = output })
      ≡ run (page_step byte rest hidden output)
unfolding run page_loop
run_round byte rest hidden output =
    page_loop-enough (length rest) _ _ _ _ (page_step-shorter byte rest hidden output) (omega arith)
