-- ===== src/Routing.antt =====
-- From a method's name to the path of a request, in Invoke of client.go, and back to the names of
-- the service and the method, in handleMethod of server.go. The functions of packages path and
-- strings are those of the standard library: Join, Clean and SplitN.
pub mod Parts
pub mod RoundTrip
use notnets_grpc.Prelude.{
  ℕ, zero, suc, Bool, true, false, List, [], ◌∷◌, ◌++◌, Option, none, some, Run, returns, panics,
  ◌==◌, ◌||◌, if◌then◌else◌,
}
use notnets_grpc.Text.{Text, codes, text_eq}

abbrev pub slash : ℕ
slash = b'/'

-- A byte at the head of the first of some pieces.
abbrev pub onto_first : ℕ → List Text → List Text
onto_first c [] = (c ∷ []) ∷ []
onto_first c (p ∷ ps) = (c ∷ p) ∷ ps

-- The pieces between the slashes: one more than there are slashes.
unfoldable pub segments : Text → List Text
segments [] = [] ∷ []
segments (c ∷ s) = let rest = segments s in if c == slash then [] ∷ rest else onto_first c rest

is_dull : Text → Bool
unfolding text_eq
is_dull seg = text_eq seg [] || text_eq seg (codes ".")

abbrev pop : List Text → List Text
pop [] = []
pop (p ∷ ps) = ps

-- The segments that a rooted path keeps, the last one first: "." and empty ones go, and ".." goes
-- with the one before it, if there is one.
unfoldable pub resolve : List Text → List Text → List Text
unfolding is_dull text_eq
resolve kept [] = kept
resolve kept (seg ∷ segs) =
    resolve
      (if is_dull seg then kept else if text_eq seg (codes "..") then pop kept else seg ∷ kept) segs

-- A path of segments, the last one first.
unfoldable pub render : List Text → Text
render [] = []
render (seg ∷ before) = render before ++ slash ∷ seg

or_root : Text → Text
or_root [] = slash ∷ []
or_root (c ∷ s) = c ∷ s

-- path.Clean of a rooted path
unfoldable pub clean : Text → Text
unfolding resolve render or_root
clean path = or_root (render (resolve [] (segments path)))

-- path.Join(a, b) for an `a` that is not empty
abbrev pub join : Text → Text → Text
join a [] = clean a
join a (c ∷ b) = clean (a ++ slash ∷ c ∷ b)

-- reqUrl: path.Join("//" + network, methodName)
unfoldable pub req_url : Text → Text → Text
unfolding clean
req_url network method_name = join (codes "//" ++ network) method_name

-- strings.SplitN(s, "/", n) for n ≥ 1
unfoldable pub split_n : ℕ → Text → List Text
split_n zero s = s ∷ []
split_n (suc zero) s = s ∷ []
split_n (suc (suc n)) [] = [] ∷ []
split_n (suc (suc n)) (c ∷ s) =
    let rest = split_n (suc n) s in
    let more = split_n (suc (suc n)) s in if c == slash then [] ∷ rest else onto_first c more

-- strs[1] and strs[2]
abbrev second_and_third : List Text → Run (Text × Text)
second_and_third (a ∷ b ∷ c ∷ rest) = returns (b, c)
second_and_third [] = panics
second_and_third (a ∷ []) = panics
second_and_third (a ∷ b ∷ []) = panics

-- fullName[1:] and what follows: the names of the service and the method. A missing part panics.
unfoldable pub service_and_method : Text → Run (Text × Text)
unfolding split_n
service_and_method [] = panics
service_and_method (c ∷ s) = second_and_third (split_n 3 s)
