-- ===== src/Json/Grammar.antt =====
-- The documents of strict JSON by a grammar: no key twice, nesting within the depth in force.
use legion_cli.Prelude.{
  ℕ, suc, ◌≡◌, Bool, true, false, List, [], ◌∷◌, ◌++◌, ltb, contains, list_eq, nat_eq,
}
use legion_cli.Text.{Text, codes}
use legion_cli.Json.Surrogates.{is_well_formed}
use legion_cli.Json.Strings.{quote, IsBody}
use legion_cli.Json.Numbers.{IsNumber}
use legion_cli.Json.Reader.{is_space}

pub data IsSpace : Text → Type 0 where
  no_space : IsSpace []
  space : {w : Text} (c : ℕ) → is_space c ≡ true → IsSpace w → IsSpace (c ∷ w)

-- The words of the source.
pub data IsWord : Text → Type 0 where
  true_word : IsWord (codes "true")
  false_word : IsWord (codes "false")
  null_word : IsWord (codes "null")

-- A literal after its opening quote, and the string it denotes, without unpaired surrogates.
pub data IsString (decode : Text → Text) : Text → Text → Type 0 where
  string :
      {body : Text}
      → IsBody body
      → is_well_formed (decode (quote ∷ body)) ≡ true
      → IsString decode body (decode (quote ∷ body))

module _ (decode : Text → Text) (is_finite : Text → Bool) (max_depth : ℕ) where
  -- `IsValue d` is a value at nesting depth `d` after white space, `IsMembers d keys` the rest of an
  -- object whose `keys` have been seen, its brace included, and `IsItems d` the rest of an array.
  mutual
    pub data IsValue : ℕ → Text → Type 0 where
      empty_object :
          {d : ℕ} {w₁ w₂ : Text}
          → IsSpace w₁
          → ltb d max_depth ≡ true
          → IsSpace w₂
          → IsValue d (w₁ ++ b'{' ∷ w₂ ++ b'}' ∷ [])
      object :
          {d : ℕ} {w₁ w₂ members : Text}
          → IsSpace w₁
          → ltb d max_depth ≡ true
          → IsSpace w₂
          → IsMembers (suc d) [] members
          → IsValue d (w₁ ++ b'{' ∷ w₂ ++ members)
      empty_array :
          {d : ℕ} {w₁ w₂ : Text}
          → IsSpace w₁
          → ltb d max_depth ≡ true
          → IsSpace w₂
          → IsValue d (w₁ ++ b'[' ∷ w₂ ++ b']' ∷ [])
      array :
          {d : ℕ} {w₁ w₂ items : Text}
          → IsSpace w₁
          → ltb d max_depth ≡ true
          → IsSpace w₂
          → IsItems (suc d) items
          → IsValue d (w₁ ++ b'[' ∷ w₂ ++ items)
      string :
          {d : ℕ} {w body value : Text}
          → IsSpace w
          → IsString decode body value
          → IsValue d (w ++ quote ∷ body)
      number :
          {d : ℕ} {w literal : Text}
          → IsSpace w
          → IsNumber literal
          → is_finite literal ≡ true
          → IsValue d (w ++ literal)
      word : {d : ℕ} {w literal : Text} → IsSpace w → IsWord literal → IsValue d (w ++ literal)

    pub data IsMembers : ℕ → List Text → Text → Type 0 where
      last_member :
          {d : ℕ} {keys : List Text} {body key w₁ value w₂ : Text}
          → IsString decode body key
          → contains keys key ≡ false
          → IsSpace w₁
          → IsValue d value
          → IsSpace w₂
          → IsMembers d keys (quote ∷ body ++ w₁ ++ b':' ∷ value ++ w₂ ++ b'}' ∷ [])
      more_members :
          {d : ℕ} {keys : List Text} {body key w₁ value w₂ w₃ members : Text}
          → IsString decode body key
          → contains keys key ≡ false
          → IsSpace w₁
          → IsValue d value
          → IsSpace w₂
          → IsSpace w₃
          → IsMembers d (key ∷ keys) members
          → IsMembers d keys (quote ∷ body ++ w₁ ++ b':' ∷ value ++ w₂ ++ b',' ∷ (w₃ ++ members))

    pub data IsItems : ℕ → Text → Type 0 where
      last_item :
          {d : ℕ} {value w : Text}
          → IsValue d value
          → IsSpace w
          → IsItems d (value ++ w ++ b']' ∷ [])
      more_items :
          {d : ℕ} {value w items : Text}
          → IsValue d value
          → IsSpace w
          → IsItems d items
          → IsItems d (value ++ w ++ b',' ∷ items)

  -- A whole text.
  pub data IsDocument : Text → Type 0 where
    document : {value w : Text} → IsValue 0 value → IsSpace w → IsDocument (value ++ w)
