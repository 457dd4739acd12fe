-- ===== src/Web/Effect.antt =====
-- What a handler of a page does beside setting its state, and the results of TanStack Query's hooks
-- that a page reads. The hooks themselves, sonner's toasts and Next's router are third-party code.
use swiftmind_parking_portal.Common.{String, Bool, Option, none, some, List}

-- `M` holds the variables of the page's mutation.
pub data Effect (M : Type 0) : Type 0 where
  -- `router.push` and `router.replace`
  push replace : String → Effect M
  -- `toast.success` and `toast.error`
  toast_success toast_error : String → Effect M
  -- `queryClient.invalidateQueries({ queryKey })`
  invalidate : List String → Effect M
  -- `mutation.mutate(variables)`
  mutate : M → Effect M
  -- `window.print()`
  print_window : Effect M

-- The result of `useQuery`.
pub record Query (D : Type 0) : Type 0 where
  pub is_pending : Bool
  pub is_error : Bool
  pub result : Option D

-- The result of `useMutation`.
pub record Mutation (M : Type 0) : Type 0 where
  pub is_pending : Bool
  pub variables : Option M

-- The data of a query have arrived, and satisfy `P`.
abbrev pub Arrived {ℓ} : {D : Type ℓ} → (D → Type 0) → Option D → Type 0
Arrived P none = ⊥
Arrived P (some d) = P d
