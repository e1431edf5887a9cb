-- ===== src/Util/System/Display.antt =====
-- The texts of `Display` in src/util/system.rs. A text is put in front of what is written after it.
-- The decimal texts of a usize and of an i32 are parameters.
pub mod Unique
mod Tests
use schtest.Prelude.{ℕ, List, [], ◌∷◌, ◌++◌}
use schtest.Prelude.Int.{ℤ}
use schtest.Prelude.Text.{codes}
use schtest.Util.System.{Hyperthread, Core, CoreComplex, Node, System, logical_cpus}

module _ {A : Type 0} (fmt : A → List ℕ → List ℕ) where
  -- The elements after the first one, each with a comma before it.
  pub fmt_rest : List A → List ℕ → List ℕ
  fmt_rest [] after = after
  fmt_rest (x ∷ xs) after = codes ", " ++ fmt x (fmt_rest xs after)

  pub fmt_items : List A → List ℕ → List ℕ
  unfolding fmt_rest
  fmt_items [] after = after
  fmt_items (x ∷ xs) after = fmt x (fmt_rest xs after)

module _ (usize_text : ℕ → List ℕ) (i32_text : ℤ → List ℕ) where
  pub fmt_hyperthread : Hyperthread → List ℕ → List ℕ
  fmt_hyperthread h after = codes "Hyperthread{id=" ++ (usize_text h.id ++ (codes "}" ++ after))

  pub fmt_core : Core → List ℕ → List ℕ
  unfolding fmt_items fmt_hyperthread
  fmt_core c after =
      codes "Core{id="
      ++ (i32_text c.id
          ++ (codes ", hyperthreads=["
              ++ fmt_items fmt_hyperthread c.hyperthreads (codes "]}" ++ after)))

  pub fmt_complex : CoreComplex → List ℕ → List ℕ
  unfolding fmt_items fmt_core
  fmt_complex c after =
      codes "CoreComplex{id="
      ++ (i32_text c.id ++ (codes ", cores=[" ++ fmt_items fmt_core c.cores (codes "]}" ++ after)))

  pub fmt_node : Node → List ℕ → List ℕ
  unfolding fmt_items fmt_complex
  fmt_node n after =
      codes "Node{id="
      ++ (i32_text n.id
          ++ (codes ", complexes=[" ++ fmt_items fmt_complex n.complexes (codes "]}" ++ after)))

  pub fmt_system : System → List ℕ → List ℕ
  unfolding fmt_items fmt_node
  fmt_system s after =
      codes "System{nodes=["
      ++ fmt_items fmt_node s.nodes
          (codes "], logical_cpus=" ++ (usize_text (logical_cpus s) ++ (codes "}" ++ after)))
