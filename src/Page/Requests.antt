-- ===== src/Page/Requests.antt =====
-- The requests of a session channel of a user, and the channels that `handleUser` admits, of
-- cmd/proxy/main.go.
use multi_ssh.Base.{◌≡◌, refl, Bool, true, false, List, [], ◌∷◌, map, any}
use multi_ssh.Page.{Request, pty_req, shell, refused, serve_listing}

abbrev is_shell : Request → Bool
is_shell shell = true
is_shell q = false

abbrev granted : Request → Bool
granted (refused kind) = false
granted q = true

-- The requests up to the first shell and with it.
abbrev through_shell : List Request → List Request
through_shell [] = []
through_shell (shell ∷ qs) = shell ∷ []
through_shell (q ∷ qs) = q ∷ through_shell qs

-- The page is shown exactly if a shell is asked for, whatever else is; a terminal and the shell
-- are granted, each other request is refused, and nothing behind the shell is answered.
pub serve_listing_lem :
    (qs : List Request) → serve_listing qs ≡ (map granted (through_shell qs), any is_shell qs)
unfolding serve_listing
serve_listing_lem [] = refl
serve_listing_lem (pty_req ∷ qs) = rw (serve_listing_lem qs) refl
serve_listing_lem (shell ∷ qs) = refl
serve_listing_lem (refused kind ∷ qs) = rw (serve_listing_lem qs) refl
