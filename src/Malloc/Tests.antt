-- ===== src/Malloc/Tests.antt =====
-- The theorems about lib/malloc.c at concrete inputs, and runs of its functions.
use linux.Common.{length, ℕ, ◌≡◌, ◌≤◌, ◌+◌, refl, arith, [], ◌∷◌}
use linux.Malloc.{
  BucketDesc, BucketDir, Supply, Outcome, bucket_dir, malloc, free_s, malloc_chain, take_object,
  new_bucket, bucket_page, init_bucket_desc, objects,
}
use linux.Malloc.Buckets.{
  count, pages, chain_pages, IsHeap, AllChains, AllBuckets, AllAligned, IsBucket, AllInPage,
}
use linux.Malloc.Directory.{malloc-free_s}
use linux.Malloc.Objects.{IsDir, IsChain, AllObjects, IsObject, Fits, malloc-Fits}

abbrev stock : Supply
stock = record { pages = 8192 ∷ 12288 ∷ []; descs = 5 }

-- The second object of the page 8192 and those behind it are free.
abbrev desc : BucketDesc
desc = record { page = 8192; freeptr = 10240 ∷ []; refcnt = 1; bucket_size = 2048 }

abbrev small_dir : BucketDir
small_dir = (1024, []) ∷ (2048, desc ∷ []) ∷ (4096, []) ∷ []

abbrev left : Supply
left = record { pages = 12288 ∷ []; descs = 5 }

-- The first call of all needs a page for the descriptors and one for the objects.
first_call :
    malloc 3000 bucket_dir (record stock { descs = 0 })
    ≡ Outcome.done (
      12288,
      (16, [])
          ∷ (32, [])
          ∷ (64, [])
          ∷ (128, [])
          ∷ (256, [])
          ∷ (512, [])
          ∷ (1024, [])
          ∷ (2048, [])
          ∷ (4096, record { page = 12288; freeptr = []; refcnt = 1; bucket_size = 4096 } ∷ [])
          ∷ [],
      record { pages = []; descs = 255 },
    )
unfolding malloc malloc_chain take_object new_bucket bucket_page init_bucket_desc objects
first_call = refl

too_large : malloc 5000 bucket_dir stock ≡ Outcome.panicked
unfolding malloc
too_large = refl

desc-IsBucket : IsBucket desc
unfolding AllInPage
desc-IsBucket = record { free_in_page = (refl, tt); in_use = omega arith; not_over = omega arith }

apart : (p : ℕ) → count p (pages small_dir) + count p left.pages ≤ 1
unfolding count pages chain_pages
apart p = ground arith

small-IsHeap : IsHeap small_dir left
unfolding AllChains AllBuckets AllAligned
small-IsHeap = record {
  chains = (tt, ((desc-IsBucket, tt), (tt, tt)));
  distinct = apart;
  aligned = (refl, tt);
  ready = omega arith;
}

second_object :
    malloc 2000 small_dir left
    ≡ Outcome.done (
      10240,
      (1024, []) ∷ (2048, record desc { freeptr = []; refcnt = 2 } ∷ []) ∷ (4096, []) ∷ [],
      left,
    )
unfolding malloc malloc_chain take_object
second_object = refl

malloc-free_s_example :
    free_s 10240 1500
      ((1024, []) ∷ (2048, record desc { freeptr = []; refcnt = 2 } ∷ []) ∷ (4096, []) ∷ [])
      left
    ≡ Outcome.done (small_dir, left)
malloc-free_s_example =
    malloc-free_s 2000 1500 10240 small_dir _ left left (omega arith) small-IsHeap second_object

small-IsDir : IsDir small_dir
unfolding IsDir IsChain AllObjects IsObject
small-IsDir = (
  omega arith,
  omega arith,
  tt,
  (
    omega arith,
    omega arith,
    (((1, refl, omega arith), tt), tt),
    (omega arith, omega arith, tt, tt),
  ),
)

malloc-Fits_example : Fits (length left.pages) 2000 small_dir (malloc 2000 small_dir left)
malloc-Fits_example = malloc-Fits 2000 small_dir left small-IsDir
