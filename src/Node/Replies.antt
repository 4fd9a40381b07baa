-- ===== src/Node/Replies.antt =====
-- Which reply a pair waits for: the keys of midscaled/daemon/hole_puncher.py.
use Prim.Native.String.{◌++◌ as append}
use midscale.Prelude.{
  ℕ, String, Bool, true, false, Option, none, some, List, [], ◌∷◌, ◌≡◌, refl, ap, ◌∙◌, arith,
  str_eq, eq_iff, leb, Bool-cases, inl, inr,
}
use midscale.Prelude.Dict.{get, get-put}
use midscale.Prelude.Texts.{last_code, last_code-append}
use midscale.Node.Puncher.{
  NumberText, Datagram, Expected, deliver_response, set_done, key_of, addr_key, datagram_received,
  received,
}

dots : (d : ℕ) → last_code d "->..." ≡ 46
unfolding last_code
dots d = refl

module _ (lib : NumberText) (bind_port : ℕ) where
  open lib use {str}

  last-addr_key : (d : Datagram) → last_code 0 (addr_key lib bind_port d) ≡ 46
  last-addr_key d =
      last_code-append 0 d.ip (append ":" (append (str d.port) "->..."))
      ∙ last_code-append (last_code 0 d.ip) ":" (append (str d.port) "->...")
      ∙ last_code-append (last_code (last_code 0 d.ip) ":") (str d.port) "->..."
      ∙ dots (last_code (last_code (last_code 0 d.ip) ":") (str d.port))

  last-key_of :
      (l : String) (p : ℕ) (r : String) (q : ℕ)
      → leb 48 (last_code 0 (key_of lib bind_port l p r q)) ≡ true
  last-key_of l p r q =
      rw
        (
          last_code-append 0 l
              (append ":" (append (str p) (append "->" (append r (append ":" (str q)))))),
          last_code-append (last_code 0 l) ":"
              (append (str p) (append "->" (append r (append ":" (str q))))),
          last_code-append (last_code (last_code 0 l) ":") (str p)
              (append "->" (append r (append ":" (str q)))),
          last_code-append (last_code (last_code (last_code 0 l) ":") (str p)) "->"
              (append r (append ":" (str q))),
          last_code-append (last_code (last_code (last_code (last_code 0 l) ":") (str p)) "->") r
              (append ":" (str q)),
          last_code-append
              (last_code (last_code (last_code (last_code (last_code 0 l) ":") (str p)) "->") r) ":"
              (str q),
        )
        (lib.last_digit q _)

  pub other_key :
      (d : Datagram) (l : String) (p : ℕ) (r : String) (q : ℕ)
      → str_eq (addr_key lib bind_port d) (key_of lib bind_port l p r q) ≡ false
  other_key d l p r q =
      elim (Bool-cases (str_eq (addr_key lib bind_port d) (key_of lib bind_port l p r q))) [
        | inr e ↦ e
        | inl e ↦
            let same : last_code 0 (addr_key lib bind_port d)
                ≡ last_code 0 (key_of lib bind_port l p r q) =
              ap (last_code 0)
                ((eq_iff (addr_key lib bind_port d) (key_of lib bind_port l p r q)).0 e) in
            absurd (ground (arith, same, last-addr_key d, last-key_of l p r q))
      ]

  module _ (key : String)
      (foreign : (d : Datagram) → str_eq (addr_key lib bind_port d) key ≡ false) where
    deliver-other :
        (d : Datagram) (e : Expected)
        → get (some key) (deliver_response (addr_key lib bind_port d) e) ≡ get (some key) e
    unfolding deliver_response
    deliver-other d e = set-other (get (some (addr_key lib bind_port d)) e)
      where
        set-other :
            (o : Option Bool)
            → get (some key) (set_done (addr_key lib bind_port d) o e) ≡ get (some key) e
        set-other none = refl
        set-other (some true) = refl
        set-other (some false) =
            get-put (some (addr_key lib bind_port d)) (some key) true e ∙ rw (foreign d) refl

    datagram-other :
        (d : Datagram) (e : Expected)
        → get (some key) (datagram_received lib bind_port d e) ≡ get (some key) e
    unfolding datagram_received
    datagram-other d e = elim (Bool-cases d.is_punch) [
      | inr n ↦ rw n refl
      | inl n ↦
          rw n (deliver-other d (deliver_response (addr_key lib bind_port d) e) ∙ deliver-other d e)
    ]

    pub received-other :
        (ds : List Datagram) (e : Expected)
        → get (some key) (received lib bind_port ds e) ≡ get (some key) e
    received-other [] e = refl
    received-other (d ∷ ds) e =
        received-other ds (datagram_received lib bind_port d e) ∙ datagram-other d e
