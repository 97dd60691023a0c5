-- ===== src/Json/Steps.antt =====
-- One step of `value` and of its loops keeps to the grammar when what it calls does.
use legion_cli.Prelude.{
  ℕ, suc, ◌≤◌, ◌<◌, ◌≡◌, refl, sym, ◌∙◌, subst, ap, Bool, true, false, not, List, [], ◌∷◌, ◌++◌,
  nat_eq, list_eq, ltb, contains, length, arith,
}
use legion_cli.Text.{Text}
use legion_cli.Json.Result.{
  Scan, JsonError, ◌>>◌, demand, Reads, reads, throws, Reads-bind, Reads-map, Reads-demand,
  split-split,
}
use legion_cli.Json.Surrogates.{is_well_formed}
use legion_cli.Json.Strings.{quote, scan_body-Splits, Mode}
use legion_cli.Json.Numbers.{scan_number-Splits}
use legion_cli.Json.Reader.{
  skip_space, after_unit, or_invalid, Token, token, scan_string, unless_closed, comma_or, at_token,
  value_step, member_step, item_step, enter,
}
use legion_cli.Json.Grammar.{IsSpace, IsString, IsValue, IsMembers, IsItems}
use legion_cli.Json.Scans.{
  Leaves, Announces, Leaves-length, split-unit, skip_space-Leaves, skip_space-length, not-true,
  after_unit-Reads, after_prefix-Reads, token-Announces, unless_closed-Reads, comma_or-Reads,
}

module _ (decode : Text → Text) (is_finite : Text → Bool) (max_depth : ℕ) where
  pub scan_string-Reads :
      (s : Text)
      → Reads
          (λ (value, rest). Leaves (λ body. IsString decode body value) s rest)
          (scan_string decode s)
  unfolding scan_string
  scan_string-Reads s = Reads-bind (scan_body-Splits Mode.plain s) (λ (body, rest) (e, b).
      Reads-bind
        (Reads-demand (is_well_formed (decode (quote ∷ body))) JsonError.unpaired_surrogate)
        (λ _ h. reads (decode (quote ∷ body), rest) (body, e, IsString.string b h)))

  abbrev pub Value : ℕ → Text → Type 0
  Value d = IsValue decode is_finite max_depth d

  abbrev pub Members : ℕ → List Text → Text → Type 0
  Members d keys = IsMembers decode is_finite max_depth d keys

  abbrev pub Items : ℕ → Text → Type 0
  Items d = IsItems decode is_finite max_depth d

  -- `value` reads the values of at most `n` units; the loops, the bodies of fewer.
  abbrev Values : ℕ → (ℕ → Text → Scan Text) → Type 0
  Values n value = (d : ℕ) (s : Text) → length s ≤ n → Reads (Leaves (Value d) s) (value d s)

  abbrev AllMembers : ℕ → (List Text → ℕ → Text → Scan Text) → Type 0
  AllMembers n members =
      (keys : List Text) (d : ℕ) (s : Text)
      → length s < n
      → Reads (Leaves (Members d keys) s) (members keys d s)

  abbrev AllItems : ℕ → (ℕ → Text → Scan Text) → Type 0
  AllItems n items = (d : ℕ) (s : Text) → length s < n → Reads (Leaves (Items d) s) (items d s)

  pub container-Reads :
      (start end : ℕ) (Rest : Text → Type 0) (loop : Text → Scan Text) (d : ℕ) (w s₀ : Text) (c : ℕ)
      (s : Text)
      → c ≡ start
      → s₀ ≡ w ++ c ∷ s
      → ((w₂ : Text) → ltb d max_depth ≡ true → IsSpace w₂ → Value d (w ++ start ∷ w₂ ++ end ∷ []))
      → ((w₂ body : Text)
          → ltb d max_depth ≡ true
          → IsSpace w₂
          → Rest body
          → Value d (w ++ start ∷ w₂ ++ body))
      → Reads (Leaves Rest (skip_space s)) (loop (skip_space s))
      → Reads
          (Leaves (Value d) s₀)
          (enter decode is_finite max_depth d >> unless_closed end loop (skip_space s))
  container-Reads start end Rest loop d w s₀ c s a e empty full h =
      Reads-bind (Reads-demand (ltb d max_depth) JsonError.too_deep) (λ _ deep.
        let (w₂, e₂, hw₂) = skip_space-Leaves s in
        let opened = split-unit s₀ w s w₂ (skip_space s) c start e a e₂ in
        unless_closed-Reads end loop (skip_space s)
          (λ rest f. (
            w ++ start ∷ w₂ ++ end ∷ [],
            split-split s₀ (w ++ start ∷ w₂) (end ∷ []) (skip_space s) rest opened f,
            empty w₂ deep hw₂,
          ))
          (Reads-map h (λ rest (body, f, m). (
            w ++ start ∷ w₂ ++ body,
            split-split s₀ (w ++ start ∷ w₂) body (skip_space s) rest opened f,
            full w₂ body deep hw₂ m,
          ))))

  module _ (members : List Text → ℕ → Text → Scan Text) (items : ℕ → Text → Scan Text) where
    pub at_token-Reads :
        (n : ℕ) (hm : AllMembers n members) (hi : AllItems n items) (d : ℕ) (w s₀ : Text) (c : ℕ)
        (s : Text) (t : Token)
        → Announces c t
        → IsSpace w
        → s₀ ≡ w ++ c ∷ s
        → length s < n
        → Reads (Leaves (Value d) s₀) (at_token decode is_finite max_depth members items d c s t)
    at_token-Reads n hm hi d w s₀ c s Token.brace a hw e h =
        container-Reads b'{' b'}' (Members (suc d) []) (members [] (suc d)) d w s₀ c s a e
          (λ w₂ deep h₂. IsValue.empty_object hw deep h₂)
          (λ w₂ body deep h₂ m. IsValue.object hw deep h₂ m)
          (hm [] (suc d) (skip_space s) (omega (arith, h, skip_space-length s)))
    at_token-Reads n hm hi d w s₀ c s Token.bracket a hw e h =
        container-Reads b'[' b']' (Items (suc d)) (items (suc d)) d w s₀ c s a e
          (λ w₂ deep h₂. IsValue.empty_array hw deep h₂)
          (λ w₂ body deep h₂ m. IsValue.array hw deep h₂ m)
          (hi (suc d) (skip_space s) (omega (arith, h, skip_space-length s)))
    at_token-Reads n hm hi d w s₀ c s Token.string_quote a hw e h =
        Reads-bind (scan_string-Reads s) (λ (value, rest) (body, f, b).
          reads rest
            (w ++ quote ∷ body, split-unit s₀ w s body rest c quote e a f, IsValue.string hw b))
    at_token-Reads n hm hi d w s₀ c s Token.numeral a hw e h =
        Reads-bind (scan_number-Splits is_finite (c ∷ s)) (λ (literal, rest) (f, (g, k)).
          reads rest
            (w ++ literal, split-split s₀ w literal (c ∷ s) rest e f, IsValue.number hw g k))
    at_token-Reads n hm hi d w s₀ c s (Token.literal word) a hw e h =
        Reads-map (after_prefix-Reads word (c ∷ s))
          (λ rest f. (w ++ word, split-split s₀ w word (c ∷ s) rest e f, IsValue.word hw a))
    at_token-Reads n hm hi d w s₀ c s Token.unknown a hw e h = throws JsonError.invalid

    -- A value of at most `n` units, from bodies of fewer.
    pub value_step-Reads :
        (n : ℕ) (hm : AllMembers n members) (hi : AllItems n items) (d : ℕ) (w s₀ s : Text)
        → IsSpace w
        → s₀ ≡ w ++ s
        → length s ≤ n
        → Reads (Leaves (Value d) s₀) (value_step decode is_finite max_depth members items d s)
    value_step-Reads n hm hi d w s₀ [] hw e h = throws JsonError.invalid
    value_step-Reads n hm hi d w s₀ (c ∷ s) hw e h =
        at_token-Reads n hm hi d w s₀ c s (token c) (token-Announces c) hw e (omega (arith, h))

  -- After an element: `taken` is what has been read since `s₀`.
  pub after_element-Reads :
      (end : ℕ) (Rest More : Text → Type 0) (loop : Text → Scan Text) (n : ℕ) (s₀ taken s : Text)
      → s₀ ≡ taken ++ s
      → length s₀ ≤ n
      → ((w : Text) → IsSpace w → Rest (taken ++ w ++ end ∷ []))
      → ((w more : Text) → IsSpace w → More more → Rest (taken ++ w ++ b',' ∷ more))
      → ((rest : Text) → length rest < n → Reads (Leaves More rest) (loop rest))
      → Reads (Leaves Rest s₀) (comma_or end loop (skip_space s))
  after_element-Reads end Rest More loop n s₀ taken s e h last more again =
      let (w, f, hw) = skip_space-Leaves s in
      let left = split-split s₀ taken w s (skip_space s) e f in
      comma_or-Reads end loop (skip_space s)
        (λ rest g. (
          taken ++ w ++ end ∷ [],
          split-split s₀ (taken ++ w) (end ∷ []) (skip_space s) rest left g,
          last w hw,
        ))
        (λ rest g.
          Reads-map
            (again rest
              (omega (arith, h, Leaves-length s₀ (taken ++ w) (skip_space s) left, ap length g)))
            (λ rest' (body, k, m). (
              taken ++ w ++ b',' ∷ body,
              split-unit s₀ (taken ++ w) rest body rest' b',' b','
                  (left ∙ ap (λ (t : Text). taken ++ w ++ t) g) refl k,
              more w body hw m,
            )))

  pub new_key-Reads :
      (keys : List Text) (key s : Text)
      → Reads
          (λ rest. (contains keys key ≡ false) × (s ≡ b':' ∷ rest))
          (demand (not (contains keys key)) JsonError.duplicate_key
            >> or_invalid (after_unit b':' s))
  new_key-Reads keys key s =
      Reads-bind (Reads-demand (not (contains keys key)) JsonError.duplicate_key) (λ _ new.
        Reads-map (after_unit-Reads b':' s) (λ rest e. (not-true (contains keys key) new, e)))

  -- White space, then what `P` holds of.
  abbrev Spaced : (Text → Type 0) → Text → Type 0
  Spaced P t = (w : Text) × (more : Text) × IsSpace w × (t ≡ w ++ more) × P more

  pub after_space-Reads :
      (P : Text → Type 0) (loop : Text → Scan Text) (s : Text)
      → Reads (Leaves P (skip_space s)) (loop (skip_space s))
      → Reads (Leaves (Spaced P) s) (loop (skip_space s))
  after_space-Reads P loop s h =
      let (w, e, hw) = skip_space-Leaves s in
      Reads-map h
        (λ rest (t, f, p). (w ++ t, split-split s w t (skip_space s) rest e f, (w, t, hw, refl, p)))

  pub item_step-Reads :
      (value items : ℕ → Text → Scan Text) (n : ℕ)
      → Values n value
      → AllItems n items
      → (d : ℕ) (s : Text) → length s ≤ n
      → Reads (Leaves (Items d) s) (item_step decode is_finite max_depth value items d s)
  item_step-Reads value items n hv hi d s h = Reads-bind (hv d s h) (λ s1 (v, e, hval).
      after_element-Reads b']' (Items d) (Items d) (items d) n s v s1 e h
        (λ w hw. IsItems.last_item hval hw) (λ w more hw m. IsItems.more_items hval hw m) (hi d))

  pub member_step-Reads :
      (value : ℕ → Text → Scan Text) (members : List Text → ℕ → Text → Scan Text) (n : ℕ)
      → Values n value
      → AllMembers n members
      → (keys : List Text) (d : ℕ) (s : Text) → length s ≤ n
      → Reads
          (Leaves (Members d keys) s)
          (member_step decode is_finite max_depth value members keys d s)
  member_step-Reads value members n hv hm keys d s h =
      Reads-bind (after_unit-Reads quote s) (λ s1 e1.
        Reads-bind (scan_string-Reads s1) (λ (key, s2) (body, e2, hs).
          let (w, f, hw) = skip_space-Leaves s2 in
          let quoted = split-unit s [] s1 body s2 quote quote e1 refl e2 in
          let named = split-split s (quote ∷ body) w s2 (skip_space s2) quoted f in
          Reads-bind (new_key-Reads keys key (skip_space s2)) (λ s3 (new, e3).
            let colon = named ∙ ap (λ (t : Text). quote ∷ body ++ w ++ t) e3 in
            let shorter = Leaves-length s (quote ∷ body ++ w) (b':' ∷ s3) colon in
            Reads-bind (hv d s3 (omega (arith, h, shorter))) (λ s4 (v, e4, hval).
              after_element-Reads b'}' (Members d keys) (Spaced (Members d (key ∷ keys)))
                (λ s5. members (key ∷ keys) d (skip_space s5)) n s (quote ∷ body ++ w ++ b':' ∷ v)
                s4 (split-unit s (quote ∷ body ++ w) s3 v s4 b':' b':' colon refl e4) h
                (λ w₂ hw₂. IsMembers.last_member hs new hw hval hw₂)
                (λ w₂ more hw₂ (w₃, ms, hw₃, e₃, m).
                  let at : Text → Text =
                    λ (t : Text). quote ∷ body ++ w ++ b':' ∷ v ++ w₂ ++ b',' ∷ t in
                  subst (λ (t : Text). Members d keys (at t)) (sym e₃)
                    (IsMembers.more_members hs new hw hval hw₂ hw₃ m))
                (λ s5 h5.
                  after_space-Reads (Members d (key ∷ keys)) (members (key ∷ keys) d) s5 (
                    hm (key ∷ keys) d (skip_space s5)
                      (omega (arith, h5, skip_space-length s5))))))))
