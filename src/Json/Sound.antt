-- ===== src/Json/Sound.antt =====
-- What the reader accepts is in the grammar, and its fuel is enough.
use legion_cli.Prelude.{ℕ, zero, suc, ◌+◌, ◌*◌, ◌≤◌, Bool, List, nat_eq, list_eq, length, arith}
use legion_cli.Text.{Text}
use legion_cli.Json.Result.{Reads}
use legion_cli.Json.Reader.{skip_space, scan_value, scan_members, scan_items}
use legion_cli.Json.Scans.{Leaves, skip_space-Leaves, skip_space-length}
use legion_cli.Json.Steps.{
  Value, Members, Items, value_step-Reads, item_step-Reads, member_step-Reads,
}

module _ (decode : Text → Text) (is_finite : Text → Bool) (max_depth : ℕ) where
  mutual
    unfolding scan_value scan_members scan_items

    pub scan_value-Reads :
        (fuel d : ℕ) (s : Text)
        → 2 * length s + 1 ≤ fuel
        → Reads
            (Leaves (Value decode is_finite max_depth d) s)
            (scan_value decode is_finite max_depth fuel d s)
    scan_value-Reads zero d s h = ground arith
    scan_value-Reads (suc fuel) d s h =
        let (w, e, hw) = skip_space-Leaves s in
        value_step-Reads decode is_finite max_depth (scan_members decode is_finite max_depth fuel)
          (scan_items decode is_finite max_depth fuel) (length s)
          (λ keys d' s' h'. scan_members-Reads fuel keys d' s' (omega (arith, h, h')))
          (λ d' s' h'. scan_items-Reads fuel d' s' (omega (arith, h, h'))) d w s (skip_space s) hw e
          (skip_space-length s)

    scan_members-Reads :
        (fuel : ℕ) (keys : List Text) (d : ℕ) (s : Text)
        → 2 * length s + 2 ≤ fuel
        → Reads
            (Leaves (Members decode is_finite max_depth d keys) s)
            (scan_members decode is_finite max_depth fuel keys d s)
    scan_members-Reads zero keys d s h = ground arith
    scan_members-Reads (suc fuel) keys d s h =
        member_step-Reads decode is_finite max_depth (scan_value decode is_finite max_depth fuel)
          (scan_members decode is_finite max_depth fuel) (length s)
          (λ d' s' h'. scan_value-Reads fuel d' s' (omega (arith, h, h')))
          (λ keys' d' s' h'. scan_members-Reads fuel keys' d' s' (omega (arith, h, h'))) keys d s
          (omega arith)

    scan_items-Reads :
        (fuel d : ℕ) (s : Text)
        → 2 * length s + 2 ≤ fuel
        → Reads
            (Leaves (Items decode is_finite max_depth d) s)
            (scan_items decode is_finite max_depth fuel d s)
    scan_items-Reads zero d s h = ground arith
    scan_items-Reads (suc fuel) d s h =
        item_step-Reads decode is_finite max_depth (scan_value decode is_finite max_depth fuel)
          (scan_items decode is_finite max_depth fuel) (length s)
          (λ d' s' h'. scan_value-Reads fuel d' s' (omega (arith, h, h')))
          (λ d' s' h'. scan_items-Reads fuel d' s' (omega (arith, h, h'))) d s (omega arith)
