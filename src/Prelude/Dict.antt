-- ===== src/Prelude/Dict.antt =====
-- A Python dict with text keys, in insertion order.
use Prim.Native.String.{String}
use mathlib.Core.Path.{◌≡◌, refl}
use mathlib.Core.Bool.{Bool, true, false, ◌||◌}
use mathlib.Core.List.{List, [], ◌∷◌, ◌++◌}
use native.Mathlib.Omega.{arith}
use text.Mathlib.Text.{◌==◌ as str_eq}
use text.Mathlib.TextEquality.{eq_iff}
use home_lab.Prelude.Tests.{if◌then◌else◌}

abbrev pub Dict : Type 0 → Type 0
Dict V = List (String × V)

module _ {V : Type 0} where
  -- `k in d`
  abbrev pub contains : String → Dict V → Bool
  contains k [] = false
  contains k ((j, v) ∷ d) = if str_eq j k then true else contains k d

  -- `d[k] = v`
  unfoldable pub put : String → V → Dict V → Dict V
  put k v [] = (k, v) ∷ []
  put k v ((j, w) ∷ d) = if str_eq j k then (j, v) ∷ d else (j, w) ∷ put k v d

  -- `d.update(e)`
  unfoldable pub update : Dict V → Dict V → Dict V
  unfolding put
  update d [] = d
  update d ((k, v) ∷ e) = update (put k v d) e

  -- No key stands twice.
  abbrev pub IsDict : Dict V → Type 0
  IsDict [] = Unit
  IsDict ((k, v) ∷ d) = (contains k d ≡ false) × IsDict d

  pub contains-put :
      (k j : String) (v : V) (d : Dict V) → contains j (put k v d) ≡ (str_eq k j || contains j d)
  unfolding put
  contains-put k j v [] = ground arith
  contains-put k j v ((i, w) ∷ d) =
      ground (arith, eq_iff i k, eq_iff i j, eq_iff k j, contains-put k j v d)

  pub put-IsDict : (k : String) (v : V) (d : Dict V) → IsDict d → IsDict (put k v d)
  unfolding put
  put-IsDict k v [] h = ground arith
  put-IsDict k v ((i, w) ∷ d) h =
      ground (arith, put-IsDict k v d h.1, contains-put k i v d, eq_iff i k, eq_iff k i)

  pub update-IsDict : (d e : Dict V) → IsDict d → IsDict (update d e)
  unfolding update
  update-IsDict d [] h = h
  update-IsDict d ((k, v) ∷ e) h = update-IsDict (put k v d) e (put-IsDict k v d h)

  pub contains-update :
      (j : String) (d e : Dict V) → contains j (update d e) ≡ (contains j d || contains j e)
  unfolding update
  contains-update j d [] = ground arith
  contains-update j d ((k, v) ∷ e) =
      ground (arith, contains-update j (put k v d) e, contains-put k j v d)

  pub contains-append :
      (j : String) (d e : Dict V) → contains j (d ++ e) ≡ (contains j d || contains j e)
  contains-append j [] e = refl
  contains-append j ((k, v) ∷ d) e = ground (arith, contains-append j d e)
