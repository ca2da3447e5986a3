-- ===== src/VmArm/Boot/Tree.antt =====
-- The node of the tree with the arguments of the kernel.
use camkes_vm.Common.{ℕ, ◌≡◌, refl, Bool, true, false, List, ◌∷◌}
use camkes_vm.VmArm.Boot.{
  stdout_path, linux_stdout_path, BootCall, add_chosen, append_property, Boot, append_bootargs,
  fdt_generate_chosen_node,
}

-- the calls so far of a chosen node, and what its variable `err` holds
abbrev pub node_calls : Bool → List BootCall → List BootCall
node_calls false log = add_chosen ∷ log
node_calls true log =
    append_property linux_stdout_path ∷ append_property stdout_path ∷ add_chosen ∷ log

abbrev pub node_err : Bool → ℕ → ℕ
node_err false garbage = garbage
node_err true garbage = 0

module _ (boot : Boot) where
  -- Where there is no memory for the arguments of the kernel, and the paths of the console, if
  -- there is one, are appended without error, the node is made without arguments, and what is
  -- returned says success when there is a console, and is a value that was never set when there is
  -- none.
  fdt_generate_chosen_node-no_memory :
      (has_stdout : Bool) (maxcpus garbage : ℕ) (log : List BootCall)
      → ((l : List BootCall) → boot.err (append_property stdout_path ∷ l) ≡ 0)
      → ((l : List BootCall) → boot.err (append_property linux_stdout_path ∷ l) ≡ 0)
      → ((l : List BootCall) → boot.has_memory l ≡ false)
      → fdt_generate_chosen_node boot has_stdout maxcpus garbage log
        ≡ (node_err has_stdout garbage, node_calls has_stdout log)
  unfolding fdt_generate_chosen_node append_bootargs
  fdt_generate_chosen_node-no_memory false maxcpus garbage log p q m =
      rw (append_bootargs, m (node_calls false log)) refl
  fdt_generate_chosen_node-no_memory true maxcpus garbage log p q m =
      rw
        (
          p (add_chosen ∷ log),
          q (append_property stdout_path ∷ add_chosen ∷ log),
          append_bootargs,
          m (node_calls true log),
        )
        refl
