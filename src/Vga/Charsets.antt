-- ===== src/Vga/Charsets.antt =====
-- second/vga.c: the tables from the character sets of a VT100 to the codes of the font.
use emile.Common.{ℕ, suc, zero, [], ◌∷◌, Bytes}
use emile.Common.Slice.{slice}

abbrev charset_0 : Bytes
charset_0 =
    0 ∷ 1 ∷ 2 ∷ 3 ∷ 4 ∷ 5 ∷ 6 ∷ 7 ∷ 8 ∷ 9 ∷ 10 ∷ 11 ∷ 12 ∷ 13 ∷ 14 ∷ 15 ∷ 16 ∷ 17 ∷ 18 ∷ 19 ∷ 20
    ∷ 21 ∷ 22 ∷ 23 ∷ 24 ∷ 25 ∷ 26 ∷ 27 ∷ 28 ∷ 29 ∷ 30 ∷ 31 ∷ 32 ∷ 33 ∷ 34 ∷ 35 ∷ 36 ∷ 37 ∷ 38 ∷ 39
    ∷ 40 ∷ 41 ∷ 42 ∷ 26 ∷ 27 ∷ 24 ∷ 25 ∷ 47 ∷ 219 ∷ 49 ∷ 50 ∷ 51 ∷ 52 ∷ 53 ∷ 54 ∷ 55 ∷ 56 ∷ 57 ∷ 58
    ∷ 59 ∷ 60 ∷ 61 ∷ 62 ∷ 63 ∷ 64 ∷ 65 ∷ 66 ∷ 67 ∷ 68 ∷ 69 ∷ 70 ∷ 71 ∷ 72 ∷ 73 ∷ 74 ∷ 75 ∷ 76 ∷ 77
    ∷ 78 ∷ 79 ∷ 80 ∷ 81 ∷ 82 ∷ 83 ∷ 84 ∷ 85 ∷ 86 ∷ 87 ∷ 88 ∷ 89 ∷ 90 ∷ 91 ∷ 92 ∷ 93 ∷ 94 ∷ 160 ∷ 0
    ∷ 177 ∷ 0 ∷ 0 ∷ 0 ∷ 0 ∷ 176 ∷ 177 ∷ 176 ∷ 0 ∷ 217 ∷ 191 ∷ 218 ∷ 192 ∷ 197 ∷ 0 ∷ 0 ∷ 196 ∷ 0 ∷ 0
    ∷ 195 ∷ 180 ∷ 193 ∷ 194 ∷ 179 ∷ 243 ∷ 242 ∷ 227 ∷ 0 ∷ 156 ∷ 183 ∷ 127 ∷ 128 ∷ 129 ∷ 130 ∷ 131
    ∷ 132 ∷ 133 ∷ 134 ∷ 135 ∷ 136 ∷ 137 ∷ 138 ∷ 139 ∷ 140 ∷ 141 ∷ 142 ∷ 143 ∷ 144 ∷ 145 ∷ 146 ∷ 147
    ∷ 148 ∷ 149 ∷ 150 ∷ 151 ∷ 152 ∷ 153 ∷ 154 ∷ 155 ∷ 156 ∷ 157 ∷ 158 ∷ 159 ∷ 160 ∷ 161 ∷ 155 ∷ 156
    ∷ 164 ∷ 157 ∷ 166 ∷ 21 ∷ 168 ∷ 169 ∷ 166 ∷ 171 ∷ 170 ∷ 173 ∷ 174 ∷ 175 ∷ 176 ∷ 177 ∷ 178 ∷ 179
    ∷ 180 ∷ 181 ∷ 20 ∷ 183 ∷ 184 ∷ 185 ∷ 167 ∷ 175 ∷ 172 ∷ 171 ∷ 190 ∷ 168 ∷ 192 ∷ 193 ∷ 194 ∷ 195
    ∷ 142 ∷ 143 ∷ 146 ∷ 128 ∷ 200 ∷ 144 ∷ 202 ∷ 203 ∷ 204 ∷ 205 ∷ 206 ∷ 207 ∷ 208 ∷ 165 ∷ 210 ∷ 211
    ∷ 212 ∷ 213 ∷ 153 ∷ 215 ∷ 216 ∷ 217 ∷ 218 ∷ 219 ∷ 154 ∷ 221 ∷ 222 ∷ 223 ∷ 133 ∷ 160 ∷ 131 ∷ 227
    ∷ 132 ∷ 134 ∷ 145 ∷ 135 ∷ 138 ∷ 130 ∷ 136 ∷ 137 ∷ 141 ∷ 161 ∷ 140 ∷ 139 ∷ 240 ∷ 164 ∷ 149 ∷ 162
    ∷ 147 ∷ 245 ∷ 148 ∷ 246 ∷ 248 ∷ 151 ∷ 163 ∷ 150 ∷ 129 ∷ 253 ∷ 254 ∷ 152 ∷ []

abbrev charset_a : Bytes
charset_a =
    0 ∷ 1 ∷ 2 ∷ 3 ∷ 4 ∷ 5 ∷ 6 ∷ 7 ∷ 8 ∷ 9 ∷ 10 ∷ 11 ∷ 12 ∷ 13 ∷ 14 ∷ 15 ∷ 16 ∷ 17 ∷ 18 ∷ 19 ∷ 20
    ∷ 21 ∷ 22 ∷ 23 ∷ 24 ∷ 25 ∷ 26 ∷ 27 ∷ 28 ∷ 29 ∷ 30 ∷ 31 ∷ 32 ∷ 33 ∷ 34 ∷ 35 ∷ 36 ∷ 37 ∷ 38 ∷ 39
    ∷ 40 ∷ 41 ∷ 42 ∷ 43 ∷ 44 ∷ 45 ∷ 46 ∷ 47 ∷ 48 ∷ 49 ∷ 50 ∷ 51 ∷ 52 ∷ 53 ∷ 54 ∷ 55 ∷ 56 ∷ 57 ∷ 58
    ∷ 59 ∷ 60 ∷ 61 ∷ 62 ∷ 63 ∷ 64 ∷ 65 ∷ 66 ∷ 67 ∷ 68 ∷ 69 ∷ 70 ∷ 71 ∷ 72 ∷ 73 ∷ 74 ∷ 75 ∷ 76 ∷ 77
    ∷ 78 ∷ 79 ∷ 80 ∷ 81 ∷ 82 ∷ 83 ∷ 84 ∷ 85 ∷ 86 ∷ 87 ∷ 88 ∷ 89 ∷ 90 ∷ 91 ∷ 92 ∷ 93 ∷ 94 ∷ 95 ∷ 96
    ∷ 97 ∷ 98 ∷ 99 ∷ 100 ∷ 101 ∷ 102 ∷ 103 ∷ 104 ∷ 105 ∷ 106 ∷ 107 ∷ 108 ∷ 109 ∷ 110 ∷ 111 ∷ 112
    ∷ 113 ∷ 114 ∷ 115 ∷ 116 ∷ 117 ∷ 118 ∷ 119 ∷ 120 ∷ 121 ∷ 122 ∷ 123 ∷ 124 ∷ 125 ∷ 126 ∷ 127 ∷ 128
    ∷ 129 ∷ 130 ∷ 131 ∷ 132 ∷ 133 ∷ 134 ∷ 135 ∷ 136 ∷ 137 ∷ 138 ∷ 139 ∷ 140 ∷ 141 ∷ 142 ∷ 143 ∷ 144
    ∷ 145 ∷ 146 ∷ 147 ∷ 148 ∷ 149 ∷ 150 ∷ 151 ∷ 152 ∷ 153 ∷ 154 ∷ 155 ∷ 156 ∷ 157 ∷ 158 ∷ 159 ∷ 95
    ∷ 161 ∷ 155 ∷ 125 ∷ 164 ∷ 157 ∷ 166 ∷ 21 ∷ 168 ∷ 169 ∷ 166 ∷ 171 ∷ 170 ∷ 173 ∷ 174 ∷ 175 ∷ 102
    ∷ 103 ∷ 178 ∷ 179 ∷ 180 ∷ 181 ∷ 20 ∷ 126 ∷ 184 ∷ 185 ∷ 167 ∷ 175 ∷ 172 ∷ 171 ∷ 190 ∷ 168 ∷ 192
    ∷ 193 ∷ 194 ∷ 195 ∷ 142 ∷ 143 ∷ 146 ∷ 128 ∷ 200 ∷ 144 ∷ 202 ∷ 203 ∷ 204 ∷ 205 ∷ 206 ∷ 207 ∷ 208
    ∷ 165 ∷ 210 ∷ 211 ∷ 212 ∷ 213 ∷ 153 ∷ 215 ∷ 216 ∷ 217 ∷ 218 ∷ 219 ∷ 154 ∷ 221 ∷ 222 ∷ 223 ∷ 133
    ∷ 160 ∷ 131 ∷ 227 ∷ 132 ∷ 134 ∷ 145 ∷ 135 ∷ 138 ∷ 130 ∷ 136 ∷ 137 ∷ 141 ∷ 161 ∷ 140 ∷ 139 ∷ 240
    ∷ 164 ∷ 149 ∷ 162 ∷ 147 ∷ 245 ∷ 148 ∷ 246 ∷ 248 ∷ 151 ∷ 163 ∷ 150 ∷ 129 ∷ 253 ∷ 254 ∷ 152 ∷ []

-- `translation`: the third set is the code itself, and there are no others.
unfoldable pub translation : ℕ → Bytes
translation zero = charset_0
translation (suc zero) = charset_a
translation (suc (suc zero)) = slice (λ c. c) 0 256
translation (suc (suc (suc n))) = []
