-- ===== src/Format/Marshal/Layout.antt =====
-- The layout of Format v2 as docs/architecture.md gives it: the fields one behind the other.
use microfat.Base.{◌+◌, ◌≡◌, ◌%◌, List, [], ◌∷◌, ◌++◌, arith, length, length-append}
use microfat.Text.{Bytes}
use microfat.Words.{put_uint, length-put_uint}
use microfat.Format.Types.{VariantEntry, Index, index_magic_v2, format_version2}
use microfat.Format.Marshal.{compression_of}

-- A text behind its length in one byte, and in two bytes.
unfoldable pub string8 : Bytes → Bytes
string8 s = (length s % 256) ∷ s

unfoldable pub string16 : Bytes → Bytes
string16 s = put_uint 2 (length s) ++ s

unfoldable pub variant_layout : VariantEntry → Bytes
variant_layout v =
    string8 v.level
    ++ (put_uint 8 v.offset
        ++ (put_uint 8 v.compressed_size
            ++ (put_uint 8 v.uncompressed_size
                ++ (string8 v.sha256 ++ (string8 (compression_of v.compression))))))

unfoldable pub variants_layout : List VariantEntry → Bytes
variants_layout [] = []
variants_layout (v ∷ vs) = variant_layout v ++ variants_layout vs

unfoldable pub header_layout : Index → Bytes
header_layout idx =
    index_magic_v2
    ++ (put_uint 2 format_version2
        ++ (put_uint 8 idx.created_unix
            ++ (put_uint 8 idx.dictionary_offset
                ++ (put_uint 8 idx.dictionary_size ++ (put_uint 4 idx.dictionary_id)))))

unfoldable pub index_layout : Index → Bytes
index_layout idx =
    header_layout idx
    ++ (string8 idx.dictionary_sha256
        ++ (string8 idx.target_os
            ++ (string8 idx.target_arch
                ++ (string16 idx.app_name
                    ++ (put_uint 2 (length idx.variants) ++ (variants_layout idx.variants))))))

pub length-string8 : (s : Bytes) → length (string8 s) ≡ 1 + length s
unfolding string8
length-string8 s = omega arith

pub length-string16 : (s : Bytes) → length (string16 s) ≡ 2 + length s
unfolding string16
length-string16 s =
    omega (arith, length-append (put_uint 2 (length s)) s, length-put_uint 2 (length s))
